-- ===== src/Cli/Run/Printing.antt =====
-- crates/aethel-auth-cli/src/main.rs: what `open_identity` has read and what `emit` prints.
use aethel_runtime.Base.{
  ℕ, ◌≡◌, refl, sym, ap, ◌∙◌, subst, some, List, [], ◌∷◌, ◌++◌, Result, ok, ok_or,
}
use aethel_runtime.Base.Bytes.{Bytes, codes}
use aethel_runtime.Cli.Host.{Host, Statement, crypto, IdentityFile}
use aethel_runtime.Cli.Action.{World, Exit, returned, Action, println}
use aethel_runtime.Cli.Action.Keeps.{Fixes}
use aethel_runtime.Cli.Action.Steps.{
  Hoare, Hoare-bind, Hoare-lift, Hoare-pure, Hoare-Fixes, Hoare-both, Hoare-change, Hoare-keep,
  ok_or-ok,
}
use aethel_runtime.Cli.IdentityFile.{open_file}
use aethel_runtime.Cli.IdentityFile.Opening.{open_file_iff}
use aethel_runtime.Cli.IdentityFile.Disk.{read_identity}
use aethel_runtime.Cli.Run.{open_identity, emit}
use aethel_runtime.Cli.Run.Quiet.{eprintln-Fixes, read_passphrase-Fixes, read_identity-Fixes}
use aethel_runtime.Cli.Run.Signed.{By}

module _ {E I S : Type 0} (host : Host E I S) where
  -- There is one more line on the standard output, and it is the text of such a statement, for the
  -- file that was read at a path.
  pub record Printed (path : Bytes) (w v : World S) : Type 0 where
    pub file : IdentityFile
    pub read : (read_identity host path w).0 ≡ returned file
    pub value : Statement
    pub text : Bytes
    pub by : By host file value
    pub encoded : host.statement_json value ≡ some text
    pub appended : v.stdout ≡ w.stdout ++ (text ∷ [])

  pub stdout_blind :
      (w : World S) (stdin : Result Bytes Bytes) (stderr : List Bytes) (drawn : ℕ)
      → (record w { stdin = stdin; stderr = stderr; drawn = drawn }).stdout ≡ w.stdout
  stdout_blind w stdin stderr drawn = refl

  pub quiet :
      {A : Type 0} {K : Type 0} {m : Action S A} (out : List Bytes)
      → Fixes World.stdout m
      → Hoare (λ w. (w.stdout ≡ out) × K) m (λ a v. (v.stdout ≡ out) × K)
  quiet out h = Hoare-both _ (Hoare-Fixes _ out h) (Hoare-keep _)

  -- The run of `println!`.
  pub println-appends :
      (out : List Bytes) (text : Bytes) (K : Type 0)
      → Hoare
          (λ w. K × (w.stdout ≡ out))
          (println {S = S} text)
          (λ a v. K × (v.stdout ≡ out ++ (text ∷ [])))
  unfolding println
  println-appends out text K = record {
    at = λ w v a p e. (
      p.0,
      ap (λ (o : Exit (Unit {0}) × World S). o.1.stdout) (sym e)
          ∙ ap (λ (l : List Bytes). l ++ (text ∷ [])) p.1,
    );
  }

  pub emit-Printed :
      (path : Bytes) (w : World S) (file : IdentityFile) (value : Statement)
      → Hoare
          (λ u.
            (By host file value × ((read_identity host path w).0 ≡ returned file))
            × (u.stdout ≡ w.stdout))
          (emit host value)
          (λ a v. Printed path w v)
  unfolding emit
  emit-Printed path w file value = Hoare-bind _ _ (Hoare-lift _) λ text.
      Hoare-change _ (λ u p. ((p.0, p.1.0), p.1.1))
        (λ a v h. record {
          file = file;
          read = h.0.1.1;
          value = value;
          text = text;
          by = h.0.1.0;
          encoded = ok_or-ok (host.statement_json value) _ text h.0.0;
          appended = h.1;
        })
        (println-appends w.stdout text (
          (ok_or (host.statement_json value) (crypto (codes "encode")) ≡ ok text)
          × (By host file value × ((read_identity host path w).0 ≡ returned file))))

  -- The file that `open_identity` read at a path, with a key that is the one published.
  pub record Opened (path : Bytes) (w : World S) (file : IdentityFile) (id : I) : Type 0 where
    pub read : (read_identity host path w).0 ≡ returned file
    pub published : host.hex_encode (host.core.public_key id) ≡ file.public_key

  pub read_identity-here :
      (path : Bytes) (w : World S)
      → Hoare
          (λ u. u ≡ w)
          (read_identity host path)
          (λ file v. (v.stdout ≡ w.stdout) × ((read_identity host path w).0 ≡ returned file))
  read_identity-here path w = record {
    at = λ u v file p e.
        let here : read_identity host path w ≡ (returned file, v) =
          subst (λ (u' : World S). read_identity host path u' ≡ (returned file, v)) p e in
        (
          ap (λ (o : Exit IdentityFile × World S). o.1.stdout) (sym here)
              ∙ (read_identity-Fixes host World.stdout stdout_blind path).at w,
          ap (λ (o : Exit IdentityFile × World S). o.0) here,
        );
  }

  pub open_identity-Opened :
      (path passphrase_file : Bytes) (w : World S)
      → Hoare
          (λ u. u ≡ w)
          (open_identity host path passphrase_file)
          (λ (p : IdentityFile × I) v. (v.stdout ≡ w.stdout) × Opened path w p.0 p.1)
  unfolding open_identity
  open_identity-Opened path passphrase_file w = Hoare-bind _ _ (read_identity-here path w) λ file.
      Hoare-bind _ _
        (quiet w.stdout (read_passphrase-Fixes host World.stdout stdout_blind passphrase_file))
        λ passphrase. Hoare-bind _ _ (Hoare-lift _) λ id.
          Hoare-bind _ _
            (Hoare-change _ (λ u p. (p.1.0, (p.0, p.1.1))) (λ a v p. p)
              (quiet
                {K = (open_file host file passphrase ≡ ok id)
                  × ((read_identity host path w).0 ≡ returned file)}
                w.stdout (eprintln-Fixes host World.stdout stdout_blind _)))
            λ _.
              Hoare-pure (file, id)
                (λ u p. (
                  p.0,
                  record {
                    read = p.1.1;
                    published = ((open_file_iff host file passphrase id).0 p.1.0).published;
                  },
                ))
