-- ===== src/Retry/Bulkhead.antt =====
-- The bulkhead when calls overlap: any number of calls may start and finish in any order.
use orbi_insitutional_core_v.Prelude.{
  ℕ, suc, ◌<◌, ◌≤◌, ◌+◌, ◌-◌, ◌≡◌, refl, if◌then◌else◌, some, arith, List, [], ◌∷◌, ◌++◌,
}
use orbi_insitutional_core_v.Prelude.Text.{Text, text_eq}
use orbi_insitutional_core_v.Prelude.Dict.{Dict, lookup, lookup-insert, lookup-erase, text_eq_iff}
use orbi_insitutional_core_v.Retry.{Config, acquire, release, number_or_zero, number_or_one}

-- The map of the policy, and the provider of each call that is between its two halves.
pub record Load : Type 0 where
  pub active : Dict ℕ
  pub running : List Text

pub data Step (cfg : Config) (s t : Load) : Type 0 where
  start :
      (p : Text) (active : Dict ℕ)
      → acquire cfg p s.active ≡ some active
      → t ≡ record { active = active; running = p ∷ s.running }
      → Step cfg s t
  finish :
      (p : Text) (before after : List Text)
      → s.running ≡ before ++ p ∷ after
      → t ≡ record { active = release p s.active; running = before ++ after }
      → Step cfg s t

pub data Reach (cfg : Config) : Load → Type 0 where
  idle : Reach cfg (record { active = []; running = [] })
  next : {s t : Load} → Reach cfg s → Step cfg s t → Reach cfg t

abbrev pub count : Text → List Text → ℕ
count p [] = 0
count p (q ∷ qs) = if text_eq q p then suc (count p qs) else count p qs

count-middle : (q p : Text) (xs ys : List Text) → count q (xs ++ p ∷ ys) ≡ count q (p ∷ xs ++ ys)
count-middle q p [] ys = refl
count-middle q p (x ∷ xs) ys = ground (arith, count-middle q p xs ys)

-- The map counts the running calls of every provider, and none has more than the limit.
abbrev pub IsCounted : Config → Load → Type 0
IsCounted cfg s =
    (p : Text)
    → (number_or_zero (lookup p s.active) ≡ count p s.running)
      × (count p s.running ≤ cfg.max_concurrent_per_provider)

acquire-lookup :
    (cfg : Config) (p q : Text) (active active' : Dict ℕ)
    → acquire cfg p active ≡ some active'
    → (number_or_zero (lookup p active) < cfg.max_concurrent_per_provider)
      × (lookup q active'
          ≡ (if text_eq p q then some (number_or_zero (lookup p active) + 1) else lookup q active))
unfolding acquire
acquire-lookup cfg p q active active' h =
    ground (arith, lookup-insert p q (number_or_zero (lookup p active) + 1) active)

release-lookup :
    (p q : Text) (active : Dict ℕ)
    → number_or_zero (lookup q (release p active)) ≡ (
        if text_eq p q
        then number_or_zero (lookup p active) - 1
        else number_or_zero (lookup q active))
unfolding release
release-lookup p q active = ground (
  arith,
  text_eq_iff p q,
  lookup-erase p q active,
  lookup-insert p q (number_or_one (lookup p active) - 1) active,
)

Step-IsCounted : {cfg : Config} {s t : Load} → Step cfg s t → IsCounted cfg s → IsCounted cfg t
Step-IsCounted {cfg} {s} (start p active h e) c q =
    rw e (ground (arith, text_eq_iff p q, c p, c q, acquire-lookup cfg p q s.active active h))
Step-IsCounted {cfg} {s} (finish p before after r e) c q = rw e (
    ground (
      arith,
      text_eq_iff p q,
      rw (r, count-middle p p before after) at (c p),
      rw (r, count-middle q p before after) at (c q),
      release-lookup p q s.active,
    ))

-- However calls overlap, the map counts the running calls of every provider, and a provider never
-- has more running calls than the limit.
pub Reach-IsCounted : {cfg : Config} {s : Load} → Reach cfg s → IsCounted cfg s
unfolding lookup
Reach-IsCounted idle p = (refl, omega arith)
Reach-IsCounted (next r st) p = Step-IsCounted st (Reach-IsCounted r) p
