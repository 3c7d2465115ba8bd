-- ===== src/Base/Dicts.antt =====
-- Python's `dict` as the list of its items in the order of insertion, and the equality of keys.
use Prim.Native.Nat.{ℕ}
use Prim.Native.String.{String}
use mathlib.Core.Path.{◌≡◌, refl, ◌∙◌}
use mathlib.Core.Logic.{◌↔◌, inl, inr}
use mathlib.Core.Bool.{Bool, true}
use mathlib.Core.Option.{Option, none, some}
use mathlib.Core.List.{List, [], ◌∷◌}
use native.Mathlib.Omega.{arith}
use text.Mathlib.Text.{◌==◌ as str_eq}
use text.Mathlib.TextEquality.{eq_iff}
use arkana.Base.Tests.{◌==◌, ==_iff, Bool-cases, if◌then◌else◌}
use arkana.Base.Lists.{All}

pub record Key {ℓ} (K : Type ℓ) : Type ℓ where
  pub same : K → K → Bool
  pub same_iff : (a b : K) → (same a b ≡ true) ↔ (a ≡ b)

instance abbrev pub nat_key : Key ℕ
nat_key = record { same = ◌==◌; same_iff = ==_iff }

instance abbrev pub string_key : Key String
string_key = record { same = str_eq; same_iff = eq_iff }

abbrev pub Dict : Type 0 → Type 0 → Type 0
Dict K V = List (K × V)

module _ {K V : Type 0} ⦃key : Key K⦄ where
  -- `d.get(k)`
  unfoldable pub get : K → Dict K V → Option V
  get k [] = none
  get k ((j, v) ∷ d) = if key.same j k then some v else get k d

  -- `d[k] = v`: a key that is there keeps its place.
  unfoldable pub put : K → V → Dict K V → Dict K V
  put k v [] = (k, v) ∷ []
  put k v ((j, w) ∷ d) = if key.same j k then (j, v) ∷ d else (j, w) ∷ put k v d

  pub get-put :
      (k j : K) (v : V) (d : Dict K V)
      → get j (put k v d) ≡ (if key.same k j then some v else get j d)
  unfolding get put
  get-put k j v [] = refl
  get-put k j v ((i, w) ∷ d) =
      ground (arith, key.same_iff i k, key.same_iff i j, key.same_iff k j, get-put k j v d)

  abbrev pub Has : K → Dict K V → Type 0
  Has k d = (v : V) × (get k d ≡ some v)

  pub put-Has : (k j : K) (v : V) (d : Dict K V) → Has j d → Has j (put k v d)
  put-Has k j v d (w, h) = elim (Bool-cases (key.same k j)) [
    | inl here ↦ (v, get-put k j v d ∙ rw here)
    | inr other ↦ (w, get-put k j v d ∙ rw other h)
  ]

  pub put-Has_self : (k : K) (v : V) (d : Dict K V) → Has k (put k v d)
  put-Has_self k v d = (v, get-put k k v d ∙ rw ((key.same_iff k k).1 refl))

  -- What holds of the key that is put and of the old keys holds of all keys after it.
  pub put-keys :
      (P : K → Type 0) (k : K) (v : V) (d : Dict K V)
      → P k
      → All (λ (i : K × V). P i.0) d
      → All (λ (i : K × V). P i.0) (put k v d)
  unfolding put
  put-keys P k v [] p h = (p, tt)
  put-keys P k v ((j, w) ∷ d) p h = elim (Bool-cases (key.same j k)) [
    | inl here ↦ rw here h
    | inr other ↦ rw other (h.0, put-keys P k v d p h.1)
  ]
