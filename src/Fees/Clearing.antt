-- ===== src/Fees/Clearing.antt =====
-- What `upsertConfig` does to the caches, whichever way it ends.
use orbi_insitutional_core_v.Prelude.{
  Bool, true, false, ◌||◌, Option, none, some, [], ◌∷◌, ◌≡◌, refl, ◌⊎◌, inl, inr, Bool-cases,
  Option-cases,
}
use orbi_insitutional_core_v.Prelude.Text.{Text}
use orbi_insitutional_core_v.Fees.{FeeConfig}
use orbi_insitutional_core_v.Fees.Update.{
  WriteEnv, FeePayload, FeeStore, is_empty, no_config, normalized, find_config, write_config,
  update_found, upsert_config,
}

write_caches :
    (w : WriteEnv) (b : Bool) (c : FeeConfig) (s : FeeStore)
    → ((write_config w b c s).1.caches ≡ s.caches)
      ⊎ ((write_config w b c s).1.caches ≡ record s.caches { memory = [] })
unfolding write_config
write_caches w b c s = elim (Bool-cases (is_empty c.name || is_empty c.flow_code)) [
  | inl e ↦ rw e (inl refl)
  | inr e ↦ elim (Option-cases w.write_error) [
    | inl d ↦ rw (e, d) (inr refl)
    | inr m ↦ rw (e, m.1) (inl refl)
  ]
]

update_caches :
    (w : WriteEnv) (p : FeePayload) (o : Option FeeConfig) (s : FeeStore)
    → ((update_found w p o s).1.caches ≡ s.caches)
      ⊎ ((update_found w p o s).1.caches ≡ record s.caches { memory = [] })
unfolding update_found
update_caches w p none s = inl refl
update_caches w p (some c) s = write_caches w true (normalized p c) s

pub upsert_caches :
    (w : WriteEnv) (p : FeePayload) (id : Text) (s : FeeStore)
    → ((upsert_config w p id s).1.caches ≡ s.caches)
      ⊎ ((upsert_config w p id s).1.caches ≡ record s.caches { memory = [] })
unfolding upsert_config
upsert_caches w p [] s = write_caches w false (normalized p (no_config w.new_id)) s
upsert_caches w p (k ∷ id) s = elim (Option-cases w.read_error) [
  | inl e ↦ rw e (update_caches w p (find_config (k ∷ id) s.rows) s)
  | inr m ↦ rw m.1 (inl refl)
]
