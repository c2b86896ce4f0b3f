-- ===== src/Prelude/Maps.antt =====
-- Go's `map[string]V` as an association list. A write replaces the entry of its key.
use Prim.Native.String.{String}
use mathlib.Core.Path.{◌≡◌, refl, ap, sym, ◌∙◌, subst}
use mathlib.Core.Logic.{◌↔◌, ◌≢◌, inl, inr}
use mathlib.Core.Bool.{Bool, true, false, ◌&&◌, and-eq-true_iff}
use mathlib.Core.Option.{Option, none, some}
use mathlib.Core.List.{List, [], ◌∷◌}
use native.Mathlib.Omega.{arith}
use text.Mathlib.Text.{◌==◌}
use text.Mathlib.TextEquality.{eq_iff}
use text.Mathlib.TextPositions.{eq_refl}
use memcached_operator.Prelude.Tests.{Bool-cases, Option-cases, if◌then◌else◌}

abbrev pub Dict : Type 0 → Type 0
Dict V = List (String × V)

module _ {V : Type 0} where
  -- delete(m, k)
  unfoldable pub delete : String → Dict V → Dict V
  delete k [] = []
  delete k (entry ∷ m) = let rest = delete k m in if entry.0 == k then rest else entry ∷ rest

  -- m[k]
  unfoldable pub lookup : String → Dict V → Option V
  lookup k [] = none
  lookup k (entry ∷ m) = let later = lookup k m in if entry.0 == k then some entry.1 else later

  -- m[k] = v
  unfoldable pub insert : String → V → Dict V → Dict V
  insert k v [] = (k, v) ∷ []
  insert k v (entry ∷ m) =
      let later = insert k v m in if entry.0 == k then (k, v) ∷ m else entry ∷ later

  -- A write is seen under its own key, and under no other.
  pub lookup-insert :
      (k j : String) (v : V) (m : Dict V)
      → lookup j (insert k v m) ≡ (if k == j then some v else lookup j m)
  unfolding insert lookup
  lookup-insert k j v [] = refl
  lookup-insert k j v (entry ∷ m) =
      let tail = lookup-insert k j v m in
      ground (arith, eq_iff entry.0 k, eq_iff entry.0 j, eq_iff k j, tail)

abbrev same_text : Option String → Option String → Bool
same_text none none = true
same_text (some a) (some b) = a == b
same_text none (some b) = false
same_text (some a) none = false

-- Each key of the first list of entries has the same value in both maps.
agree : Dict String → Dict String → Dict String → Bool
agree m n [] = true
agree m n ((k, v) ∷ rest) = same_text (lookup k m) (lookup k n) && agree m n rest

-- reflect.DeepEqual on `map[string]string`, for maps that are not nil.
unfoldable pub same_map : Dict String → Dict String → Bool
unfolding agree lookup
same_map m n = agree m n m && agree m n n

same_text_sound : (a b : Option String) → same_text a b ≡ true → a ≡ b
same_text_sound none none h = refl
same_text_sound (some a) (some b) h = ap some ((eq_iff a b).0 h)
same_text_sound none (some b) h = cc
same_text_sound (some a) none h = cc

same_text_refl : (a : Option String) → same_text a a ≡ true
same_text_refl none = refl
same_text_refl (some a) = eq_refl a

agree_sound :
    (m n rest : Dict String) (k : String)
    → agree m n rest ≡ true
    → lookup k rest ≢ none
    → lookup k m ≡ lookup k n
unfolding agree lookup
agree_sound m n [] k h present = absurd (present refl)
agree_sound m n ((j, v) ∷ rest) k h present =
    let (here, later) = (and-eq-true_iff _ _).0 h in
    elim (Bool-cases (j == k)) [
      | inl same ↦
          subst (λ x. lookup x m ≡ lookup x n) ((eq_iff j k).0 same) (same_text_sound _ _ here)
      | inr differs ↦ agree_sound m n rest k later (λ e. present (rw differs e))
    ]

agree_complete :
    (m n rest : Dict String) → ((k : String) → lookup k m ≡ lookup k n) → agree m n rest ≡ true
unfolding agree
agree_complete m n [] h = refl
agree_complete m n ((k, v) ∷ rest) h =
    rw (h k, same_text_refl (lookup k n)) (agree_complete m n rest h)

-- The test holds exactly of maps with the same value at every key.
pub same_map_iff :
    (m n : Dict String) → (same_map m n ≡ true) ↔ ((k : String) → lookup k m ≡ lookup k n)
unfolding same_map
same_map_iff m n = (
  λ h k.
      let (left, right) = (and-eq-true_iff _ _).0 h in
      elim (Option-cases (lookup k m)) [
        | inr (v, e) ↦ agree_sound m n m k left (λ gone. cc (gone, e))
        | inl e ↦ elim (Option-cases (lookup k n)) [
          | inl e' ↦ e ∙ sym e'
          | inr (v, e') ↦ agree_sound m n n k right (λ gone. cc (gone, e'))
        ]
      ],
  λ h. rw (agree_complete m n m h) (agree_complete m n n h),
)
