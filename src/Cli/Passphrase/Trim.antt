-- ===== src/Cli/Passphrase/Trim.antt =====
-- crates/aethel-auth-cli/src/main.rs: the passphrase that `read_passphrase` reads.
use aethel_runtime.Base.{
  ℕ, zero, suc, ◌≤◌, ◌≡◌, ◌≢◌, ◌==◌, ◌||◌, refl, sym, ap, ◌∙◌, subst, ◌⊎◌, inl, inr, true, false,
  [], ◌∷◌, ◌++◌, append_assoc, append-nil, arith, if◌then◌else◌, Bool-cases, length, is_empty,
  Result, ok, Result-cases,
}
use aethel_runtime.Base.Bytes.{Bytes, bytes_eq}
use aethel_runtime.Cli.Host.{Host}
use aethel_runtime.Cli.Action.{World, returned, continue, pure, raise, ◌>>=◌}
use aethel_runtime.Cli.Passphrase.{
  read_passphrase, read_stdin, read_bytes, ends_in_newline, pop, trim_loop, trim,
}

-- Newlines and carriage returns.
abbrev pub Newlines : Bytes → Type 0
Newlines [] = Unit
Newlines (b ∷ bs) = ((b ≡ 10) ⊎ (b ≡ 13)) × Newlines bs

length-pop : (b : ℕ) (bs : Bytes) → length (pop (b ∷ bs)) ≡ length bs
unfolding pop
length-pop b [] = refl
length-pop b (c ∷ bs) = omega (arith, length-pop c bs)

-- A byte string that ends in a newline is what `pop` leaves, and that newline.
pop-snoc :
    (buf : Bytes)
    → ends_in_newline buf ≡ true
    → (b : ℕ) × ((b ≡ 10) ⊎ (b ≡ 13)) × (buf ≡ pop buf ++ (b ∷ []))
unfolding ends_in_newline pop
pop-snoc [] h = absurd (cc)
pop-snoc (b ∷ []) h = (b, ground (arith, h), refl)
pop-snoc (b ∷ c ∷ bs) h = let (d, n, e) = pop-snoc (c ∷ bs) h in (d, n, ap (λ (l : Bytes). b ∷ l) e)

Newlines-append : (a b : Bytes) → Newlines a → Newlines b → Newlines (a ++ b)
Newlines-append [] b h k = k
Newlines-append (x ∷ a) b h k = (h.0, Newlines-append a b h.1 k)

pub record Trimmed (buf trimmed : Bytes) : Type 0 where
  pub dropped : Bytes
  pub are_newlines : Newlines dropped
  pub split : buf ≡ trimmed ++ dropped
  pub ended :
      (before : Bytes) (last : ℕ) → trimmed ≡ before ++ (last ∷ []) → (last ≢ 10) × (last ≢ 13)

-- The test reads the last byte.
ends_in_newline-snoc :
    (before : Bytes) (last : ℕ)
    → ends_in_newline (before ++ (last ∷ [])) ≡ (last == 10 || last == 13)
unfolding ends_in_newline
ends_in_newline-snoc [] last = refl
ends_in_newline-snoc (b ∷ []) last = refl
ends_in_newline-snoc (b ∷ c ∷ bs) last = ends_in_newline-snoc (c ∷ bs) last

not_ended :
    (buf : Bytes)
    → ends_in_newline buf ≡ false
    → (before : Bytes) (last : ℕ) → buf ≡ before ++ (last ∷ [])
    → (last ≢ 10) × (last ≢ 13)
not_ended buf h before last e =
    let test : (last == 10 || last == 13) ≡ false =
      sym (ends_in_newline-snoc before last) ∙ (sym (ap ends_in_newline e) ∙ h) in
    (λ is. ground (arith, test, is), λ is. ground (arith, test, is))

trim_loop-Trimmed : (fuel : ℕ) (buf : Bytes) → length buf ≤ fuel → Trimmed buf (trim_loop fuel buf)
unfolding trim_loop ends_in_newline
trim_loop-Trimmed zero [] h = record {
  dropped = [];
  are_newlines = tt;
  split = refl;
  ended = not_ended [] refl;
}
trim_loop-Trimmed (suc fuel) [] h = record {
  dropped = [];
  are_newlines = tt;
  split = refl;
  ended = not_ended [] refl;
}
trim_loop-Trimmed zero (b ∷ bs) h = absurd (omega (arith, h))
trim_loop-Trimmed (suc fuel) (b ∷ bs) h = elim (Bool-cases (ends_in_newline (b ∷ bs))) [
  | inr e ↦ rw e (record {
    dropped = [];
    are_newlines = tt;
    split = sym (append-nil _);
    ended = not_ended _ e;
  })
  | inl e ↦
      let ih = trim_loop-Trimmed fuel (pop (b ∷ bs)) (omega (arith, h, length-pop b bs)) in
      let (d, n, s) = pop-snoc (b ∷ bs) e in
      rw e (record {
        dropped = ih.dropped ++ (d ∷ []);
        are_newlines = Newlines-append ih.dropped (d ∷ []) ih.are_newlines (n, tt);
        split =
            s
            ∙ (ap (λ (l : Bytes). l ++ (d ∷ [])) ih.split
                ∙ append_assoc (trim_loop fuel (pop (b ∷ bs))) ih.dropped (d ∷ []));
        ended = ih.ended;
      })
]

-- The loop ends: with a round for every byte it reaches a text whose last byte, if it has one, is
-- neither a newline nor a carriage return, and nothing but such bytes was dropped from the end.
pub trim-Trimmed : (buf : Bytes) → Trimmed buf (trim buf)
unfolding trim
trim-Trimmed buf = trim_loop-Trimmed (length buf) buf (omega arith)

module _ {E I S : Type 0} (host : Host E I S) where
  -- The bytes that a path names: the standard input for a dash.
  abbrev pub given : Bytes → World S → Result Bytes Bytes
  given path w = if bytes_eq path (45 ∷ []) then w.stdin else host.read w.fs path

  pub record IsPassphrase (path : Bytes) (w : World S) (passphrase : Bytes) : Type 0 where
    pub buf : Bytes
    pub read : given path w ≡ ok buf
    pub trimmed : Trimmed buf passphrase
    pub present : bytes_eq path (45 ∷ []) ≡ false → is_empty passphrase ≡ false

  -- A passphrase that is returned is what its path names, without the newlines and carriage returns at
  -- its end; and where it came from a file it is not empty.
  pub read_passphrase-IsPassphrase :
      (path : Bytes) (w v : World S) (passphrase : Bytes)
      → read_passphrase host path w ≡ (returned passphrase, v)
      → IsPassphrase path w passphrase
  unfolding read_passphrase read_stdin read_bytes ◌>>=◌ continue pure raise
  read_passphrase-IsPassphrase path w v passphrase h = elim (Bool-cases (bytes_eq path (45 ∷ []))) [
    | inl dash ↦ elim (Result-cases w.stdin) [
      | inr (e, r) ↦ absurd (ground (arith, dash, r, h))
      | inl (buf, r) ↦
          let is : trim buf ≡ passphrase = ground (arith, dash, r, h) in
          record {
            buf = buf;
            read = rw dash r;
            trimmed = subst (λ (p : Bytes). Trimmed buf p) is (trim-Trimmed buf);
            present = λ f. absurd (cc);
          }
    ]
    | inr file ↦ elim (Result-cases (host.read w.fs path)) [
      | inr (e, r) ↦ absurd (ground (arith, file, r, h))
      | inl (buf, r) ↦
          let is : trim buf ≡ passphrase = ground (arith, file, r, h) in
          record {
            buf = buf;
            read = rw file r;
            trimmed = subst (λ (p : Bytes). Trimmed buf p) is (trim-Trimmed buf);
            present = λ _. ground (arith, file, r, h);
          }
    ]
  ]
