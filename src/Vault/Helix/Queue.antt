-- ===== src/Vault/Helix/Queue.antt =====
-- src/storage/helixdb.rs, `wasm_stub`: the nodes that wait for the host, which is what the thread-local
-- `PENDING_NODES` holds.
use aethel_runtime.Base.{
  ℕ, ◌≡◌, ap, sym, ◌∙◌, List, [], ◌∷◌, ◌++◌, append_assoc, append-nil, length,
}

-- The calls that the program and its host make.
pub data Call (N : Type 0) : Type 0 where
  queue : N → Call N
  drain : Call N

module _ {N : Type 0} where
  unfoldable pub queue_state_node : List N → N → List N
  queue_state_node pending node = pending ++ (node ∷ [])

  unfoldable pub drain_pending_nodes : List N → List N × List N
  drain_pending_nodes pending = (pending, [])

  unfoldable pub pending_node_count : List N → ℕ
  pending_node_count pending = length pending

  -- What the calls hand to the host, in order, and what is left waiting.
  unfoldable pub serve : List (Call N) → List N → List N × List N
  unfolding queue_state_node drain_pending_nodes
  serve [] pending = ([], pending)
  serve (queue node ∷ calls) pending = serve calls (queue_state_node pending node)
  serve (drain ∷ calls) pending =
      let (nodes, rest) = drain_pending_nodes pending in
      let (later, left) = serve calls rest in (nodes ++ later, left)

  -- The nodes that the calls queue, in order.
  abbrev pub queued : List (Call N) → List N
  queued [] = []
  queued (queue node ∷ calls) = node ∷ queued calls
  queued (drain ∷ calls) = queued calls

  -- Whatever calls are made, in any order: what the host was handed, followed by what is left, is what
  -- was waiting at the start, followed by what was queued. No node is lost, handed over twice or out
  -- of order.
  pub serve-queued :
      (calls : List (Call N)) (pending : List N)
      → (serve calls pending).0 ++ (serve calls pending).1 ≡ pending ++ queued calls
  unfolding serve
  serve-queued [] pending = sym (append-nil pending)
  serve-queued (queue node ∷ calls) pending =
      serve-queued calls (pending ++ (node ∷ [])) ∙ append_assoc pending (node ∷ []) (queued calls)
  serve-queued (drain ∷ calls) pending =
      append_assoc pending (serve calls []).0 (serve calls []).1
      ∙ ap (λ (l : List N). pending ++ l) (serve-queued calls [])
