-- ===== src/Policy/Keys.antt =====
-- The three keys of a user are different, and what each operation does to what stands under them.
use orbi_insitutional_core_v.Prelude.{◌≡◌, refl, true, false}
use orbi_insitutional_core_v.Prelude.Int.{ℤ, pos, ◌+ℤ◌}
use orbi_insitutional_core_v.Prelude.Text.{Text, text_eq}
use orbi_insitutional_core_v.Prelude.Dict.{text_eq_refl}
use orbi_insitutional_core_v.Cache.{Cache}
use orbi_insitutional_core_v.Policy.{
  PolicyEnv, daily_key, velocity_key, frozen_key, daily_total, tx_count, is_frozen, commit_metrics,
  freeze_account,
}

module _ (env : PolicyEnv) (user other : Text) where
  velocity_daily : text_eq (velocity_key env user) (daily_key env other) ≡ false
  unfolding velocity_key daily_key text_eq
  velocity_daily = refl

  daily_velocity : text_eq (daily_key env user) (velocity_key env other) ≡ false
  unfolding velocity_key daily_key text_eq
  daily_velocity = refl

  velocity_frozen : text_eq (velocity_key env user) (frozen_key other) ≡ false
  unfolding velocity_key frozen_key text_eq
  velocity_frozen = refl

  daily_frozen : text_eq (daily_key env user) (frozen_key other) ≡ false
  unfolding daily_key frozen_key text_eq
  daily_frozen = refl

module _ {S : Type 0} (cache : Cache S) (env : PolicyEnv) (user : Text) where
  pub daily_total-commit_metrics :
      (amount : ℤ) (currency : Text) (s : S)
      → daily_total cache env user (commit_metrics cache env user amount currency s)
        ≡ daily_total cache env user s +ℤ env.convert_to_usd amount currency
  unfolding daily_total commit_metrics
  daily_total-commit_metrics amount currency s =
      rw
        (
          commit_metrics,
          cache.get-set (velocity_key env user) (daily_key env user) _ _ _,
          velocity_daily env user user,
          cache.get-set (daily_key env user) (daily_key env user) _ _ s,
          text_eq_refl (daily_key env user),
        )
        refl

  pub tx_count-commit_metrics :
      (amount : ℤ) (currency : Text) (s : S)
      → tx_count cache env user (commit_metrics cache env user amount currency s)
        ≡ tx_count cache env user s +ℤ pos 1
  unfolding tx_count commit_metrics
  tx_count-commit_metrics amount currency s =
      rw
        (
          commit_metrics,
          cache.get-set (velocity_key env user) (velocity_key env user) _ _ _,
          text_eq_refl (velocity_key env user),
        )
        refl

  pub is_frozen-commit_metrics :
      (other : Text) (amount : ℤ) (currency : Text) (s : S)
      → is_frozen cache env user (commit_metrics cache env other amount currency s)
        ≡ is_frozen cache env user s
  unfolding is_frozen commit_metrics
  is_frozen-commit_metrics other amount currency s =
      rw
        (
          cache.get-set (velocity_key env other) (frozen_key user) _ _ _,
          velocity_frozen env other user,
          cache.get-set (daily_key env other) (frozen_key user) _ _ s,
          daily_frozen env other user,
        )
        refl

  pub is_frozen-freeze_account :
      (s : S) → is_frozen cache env user (freeze_account cache env user s) ≡ true
  unfolding is_frozen freeze_account
  is_frozen-freeze_account s =
      rw (cache.get-set (frozen_key user) (frozen_key user) _ _ s, text_eq_refl (frozen_key user))
        refl
