-- ===== src/Settlement/Rules.antt =====
-- Rules for proofs about a method, one for each way that it is built.
use orbi_insitutional_core_v.Prelude.{◌≡◌, refl, Bool, true, false, if◌then◌else◌}
use orbi_insitutional_core_v.Settlement.State.{
  Db, Result, thrown, SettlementError, Action, ◌>>◌, throw_if,
}

module _ {κ} {B : Type 0} (P : Result B × Db → Type κ) where
  pub throw_if_rule :
      (c : Bool) (e : SettlementError) (k : Action B) (d : Db)
      → (c ≡ false → P (k d))
      → (c ≡ true → P (thrown e, d))
      → P ((throw_if c e >> k) d)
  throw_if_rule false e k d good bad = good refl
  throw_if_rule true e k d good bad = bad refl

  pub if_rule :
      (c : Bool) (m k : Action B) (d : Db)
      → (c ≡ true → P (m d))
      → (c ≡ false → P (k d))
      → P ((if c then m else k) d)
  if_rule true m k d holds fails = holds refl
  if_rule false m k d holds fails = fails refl
