-- ===== src/Cli/Passphrase.antt =====
-- crates/aethel-auth-cli/src/main.rs: `read_passphrase`, and the reading and writing of files.
pub mod Trim
use aethel_runtime.Base.{
  ℕ, zero, suc, Bool, false, ◌||◌, [], ◌∷◌, ◌==◌, if◌then◌else◌, length, is_empty, ok, map_err,
}
use aethel_runtime.Base.Bytes.{Bytes, bytes_eq, codes}
use aethel_runtime.Cli.Host.{io, usage, Host}
use aethel_runtime.Cli.Action.{returned, exit, Action, pure, raise, ◌>>=◌, ◌>>◌}

-- `buf.last()` is a newline or a carriage return.
unfoldable pub ends_in_newline : Bytes → Bool
ends_in_newline [] = false
ends_in_newline (b ∷ []) = b == 10 || b == 13
ends_in_newline (b ∷ c ∷ bs) = ends_in_newline (c ∷ bs)

-- `buf.pop()`.
unfoldable pub pop : Bytes → Bytes
pop [] = []
pop (b ∷ []) = []
pop (b ∷ c ∷ bs) = b ∷ pop (c ∷ bs)

-- The loop that drops newlines from the end, on fuel.
unfoldable pub trim_loop : ℕ → Bytes → Bytes
unfolding ends_in_newline pop
trim_loop zero buf = buf
trim_loop (suc fuel) buf =
    let rest = trim_loop fuel (pop buf) in if ends_in_newline buf then rest else buf

-- The loop with a round for every byte.
unfoldable pub trim : Bytes → Bytes
unfolding trim_loop
trim buf = trim_loop (length buf) buf

module _ {E I S : Type 0} (host : Host E I S) where
  -- `std::fs::read(path)`.
  unfoldable pub read_bytes : Bytes → Action S Bytes
  read_bytes path w = (exit (map_err io (host.read w.fs path)), w)

  -- `stdin().read_to_end(..)`, after which the input is at its end.
  unfoldable pub read_stdin : Action S Bytes
  read_stdin w = (exit (map_err io w.stdin), record w { stdin = ok [] })

  -- `std::fs::write(path, text)`.
  unfoldable pub write_bytes : Bytes → Bytes → Action S (Unit {0})
  write_bytes path text w =
      let (r, fs) = host.write w.fs path text in (exit (map_err io r), record w { fs = fs })

  -- `std::fs::read_to_string(path)`.
  unfoldable pub read_to_string : Bytes → Action S Bytes
  read_to_string path = do
    text ← read_bytes path
    if host.is_utf8 text then pure text else raise (io host.not_utf8)

  unfoldable pub create_dir_all : Bytes → Action S (Unit {0})
  create_dir_all path w =
      let (r, fs) = host.create_dir_all w.fs path in (exit (map_err io r), record w { fs = fs })

  -- `OsRng.fill_bytes` of a buffer of `n` bytes.
  unfoldable pub fill_bytes : ℕ → Action S Bytes
  fill_bytes n w = (returned (host.os_rng w.drawn n), record w { drawn = suc w.drawn })

  unfoldable pub read_passphrase : Bytes → Action S Bytes
  read_passphrase path =
      if bytes_eq path (45 ∷ []) then (do buf ← read_stdin; pure (trim buf)) else (do
        buf ← read_bytes path
        if is_empty (trim buf)
            then raise (usage (codes "the passphrase is empty"))
            else pure (trim buf))
