-- ===== src/Callbacks/Masks.antt =====
-- Round trips of the permission wizard's payloads, and their length.
-- About internal/adapter/telegram/callbackdata.go.
use cs2_predictor.Base.{
  true, zero, refl, not, arith, ◌≡◌, ◌==◌, List, suc, ==_iff, sym, ◌&&◌, false, Bool, ◌<◌, ℕ, ◌∙◌,
  ◌||◌, inr, [], ◌∷◌, any, inl, Bool-cases, subst,
}
use cs2_predictor.Callbacks.Permissions.{mask_from, perm_mask, perms_from_mask}
use cs2_predictor.Chat.Authorization.{
  holds, view_stats, all_permissions, Permission, manage_matches, manage_events,
  manage_group_settings,
}

-- The numbers below a bound, the largest first.
unfoldable pub numbers_below : ℕ → List ℕ
numbers_below zero = []
numbers_below (suc n) = n ∷ numbers_below n

-- A test that fails at no number of the list fails at no number below the bound.
pub numbers_below_sound :
    (q : ℕ → Bool) (bound k : ℕ) → any q (numbers_below bound) ≡ false → k < bound → q k ≡ false
unfolding numbers_below
numbers_below_sound q zero k none_passes below = absurd (omega arith)
numbers_below_sound q (suc n) k none_passes below = elim (Bool-cases (k == n)) [
  | inl e ↦
      subst (λ j. q j ≡ false) (sym ((==_iff k n).0 e))
        (first_fails (q n) (any q (numbers_below n)) none_passes)
  | inr e ↦
      numbers_below_sound q n k (later_fail (q n) (any q (numbers_below n)) none_passes)
        (ground arith)
]
  where
    first_fails : (a b : Bool) → (a || b) ≡ false → a ≡ false
    first_fails a b h = ground arith

    later_fail : (a b : Bool) → (a || b) ≡ false → b ≡ false
    later_fail a b h = ground arith

masks_table : any (λ x. not (perm_mask (perms_from_mask x) == x)) (numbers_below 16) ≡ false
unfolding numbers_below perm_mask perms_from_mask holds
masks_table = refl

-- The four answers that a set of permissions gives.
abbrev from_answers : Bool → Bool → Bool → Bool → Permission → Bool
from_answers a b c d manage_events = a
from_answers a b c d manage_matches = b
from_answers a b c d view_stats = c
from_answers a b c d manage_group_settings = d

abbrev both : (Bool → Bool) → Bool
both f = f true && f false

both_sound : (f : Bool → Bool) (b : Bool) → both f ≡ true → f b ≡ true
both_sound f true h = ground arith
both_sound f false h = ground arith

abbrev same_bool : Bool → Bool → Bool
same_bool true b = b
same_bool false b = not b

same_bool_sound : (a b : Bool) → same_bool a b ≡ true → a ≡ b
same_bool_sound true b h = sym h
same_bool_sound false b h = ground arith

abbrev agree : Bool → Bool → Bool → Bool → Permission → Bool
agree a b c d p =
    same_bool (holds (perms_from_mask (mask_from 0 (from_answers a b c d) all_permissions)) p)
      (from_answers a b c d p)

answers_table :
    (p : Permission) → both (λ a. both (λ b. both (λ c. both (λ d. agree a b c d p)))) ≡ true
unfolding perms_from_mask holds
answers_table manage_events = refl
answers_table manage_matches = refl
answers_table view_stats = refl
answers_table manage_group_settings = refl

answers_kept :
    (a b c d : Bool) (p : Permission)
    → holds (perms_from_mask (mask_from 0 (from_answers a b c d) all_permissions)) p
      ≡ from_answers a b c d p
answers_kept a b c d p = same_bool_sound _ _ (
    both_sound (λ z. agree a b c z p) d
      (both_sound (λ y. both (λ z. agree a b y z p)) c
        (both_sound (λ x. both (λ y. both (λ z. agree a x y z p))) b
          (both_sound (λ w. both (λ x. both (λ y. both (λ z. agree w x y z p)))) a
            (answers_table p)))))

answers_of :
    (perms : List Permission) (p : Permission)
    → from_answers
        (holds perms manage_events)
        (holds perms manage_matches)
        (holds perms view_stats)
        (holds perms manage_group_settings)
        p
      ≡ holds perms p
answers_of perms manage_events = refl
answers_of perms manage_matches = refl
answers_of perms view_stats = refl
answers_of perms manage_group_settings = refl

-- The masks from 0 to 15 and the sets of permissions are the same: a mask that is read as a set has
-- the set's mask, and the set that is read from a set's mask has the same permissions.
pub perm_mask-perms_from_mask :
    ((mask : ℕ) → mask < 16 → perm_mask (perms_from_mask mask) ≡ mask)
    × ((perms : List Permission) (p : Permission)
        → holds (perms_from_mask (perm_mask perms)) p ≡ holds perms p)
unfolding perm_mask
perm_mask-perms_from_mask = (
  λ mask h. (==_iff (perm_mask (perms_from_mask mask)) mask).0 (
      not_false (perm_mask (perms_from_mask mask) == mask) (
        numbers_below_sound (λ x. not (perm_mask (perms_from_mask x) == x)) 16 mask masks_table h)),
  λ perms p.
      answers_kept (holds perms manage_events) (holds perms manage_matches) (holds perms view_stats)
        (holds perms manage_group_settings) p
      ∙ answers_of perms p,
)
  where
    not_false : (b : Bool) → not b ≡ false → b ≡ true
    not_false b h = ground arith
