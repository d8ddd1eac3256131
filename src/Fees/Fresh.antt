-- ===== src/Fees/Fresh.antt =====
-- Caches whose entries expire within a time after the database's answer that they hold.
use orbi_insitutional_core_v.Prelude.{
  ◌<◌, ◌∙◌, inr, inl, ℕ, ◌+◌, ◌≤◌, ◌≡◌, ap, arith, some, List, [], ◌∷◌, Bool-cases,
}
use orbi_insitutional_core_v.Prelude.Text.{Text, text_eq, to_upper, trim}
use orbi_insitutional_core_v.Prelude.Dict.{Dict, lookup, insert, eq_of_text_eq}
use orbi_insitutional_core_v.Fees.{FeeConfig}
use orbi_insitutional_core_v.Fees.Catalog.{FeeFilters, CacheEntry, FeeEnv, build_cache_key, live}

live-some :
    (now : ℕ) (w : CacheEntry) (rows : List FeeConfig)
    → live now (some w) ≡ some rows
    → (now < w.expires_at) × (w.rows ≡ rows)
live-some now w rows e = ground arith

module _ (env : FeeEnv) where
  -- An entry that is good until a time `lag` after the database's answer.
  abbrev pub IsFreshEntry : ℕ → ℕ → Text → CacheEntry → Type 0
  IsFreshEntry lag now key e =
      (t : ℕ) × (f : FeeFilters) × (e.expires_at ≤ t + lag)
      × (t ≤ now)
      × (build_cache_key f ≡ key)
      × (env.answers t (to_upper (trim f.flow_code)) (to_upper (trim f.status)) ≡ some e.rows)

  -- Every entry of a dictionary. A key that is shadowed counts too.
  abbrev pub AreFresh : ℕ → ℕ → Dict CacheEntry → Type 0
  AreFresh lag now [] = Unit
  AreFresh lag now ((k, e) ∷ d) = IsFreshEntry lag now k e × AreFresh lag now d

  pub AreFresh-insert :
      (lag now : ℕ) (k : Text) (e : CacheEntry) (d : Dict CacheEntry)
      → IsFreshEntry lag now k e
      → AreFresh lag now d
      → AreFresh lag now (insert k e d)
  unfolding insert
  AreFresh-insert lag now k e [] h g = (h, tt)
  AreFresh-insert lag now k e ((j, w) ∷ d) h g = elim (Bool-cases (text_eq j k)) [
    | inl b ↦ rw b (h, g.1)
    | inr b ↦ rw b (g.0, AreFresh-insert lag now k e d h g.1)
  ]

  pub AreFresh-later :
      (lag now later : ℕ) (d : Dict CacheEntry)
      → now ≤ later
      → AreFresh lag now d
      → AreFresh lag later d
  AreFresh-later lag now later [] le h = tt
  AreFresh-later lag now later ((k, e) ∷ d) le h = (
    (h.0.0, h.0.1, h.0.2, omega (arith, h.0.3), h.0.4, h.0.5),
    AreFresh-later lag now later d le h.1,
  )

  -- What a lookup gives before the entry expires.
  pub AreFresh-live :
      (lag now read : ℕ) (k : Text) (d : Dict CacheEntry) (rows : List FeeConfig)
      → AreFresh lag now d
      → live read (lookup k d) ≡ some rows
      → IsFreshEntry lag now k (record { expires_at = read + 1; rows = rows })
  unfolding lookup
  AreFresh-live lag now read k [] rows h e = cc
  AreFresh-live lag now read k ((j, w) ∷ d) rows h e = elim (Bool-cases (text_eq j k)) [
    | inl b ↦
        let l = live-some read w rows (rw (lookup, b) at e) in
        (
          h.0.0,
          h.0.1,
          omega (arith, l.0, h.0.2),
          h.0.3,
          h.0.4 ∙ eq_of_text_eq j k b,
          h.0.5 ∙ ap some l.1,
        )
    | inr b ↦ AreFresh-live lag now read k d rows h.1 (rw (lookup, b) at e)
  ]
