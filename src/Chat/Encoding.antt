-- ===== src/Chat/Encoding.antt =====
-- The permissions of an invitation as one text: encodePermissions and decodePermissions of
-- internal/adapter/postgres/invitation.go.
use cs2_predictor.Base.Splits.{split_at, split_at-join, HasNo, join}
use cs2_predictor.Base.{
  ◌∙◌, map, ◌≡◌, List, ap, [], All, some, arith, ℕ, refl, ◌∷◌, contains, false,
}
use cs2_predictor.Chat.Authorization.{
  manage_matches, manage_group_settings, view_stats, Permission, manage_events,
}
use cs2_predictor.Chat.Invitations.{
  to_permission, slug, decode_permissions, keep_known, encode_permissions, to_permissions,
}

to_permission-slug : (p : Permission) → to_permission (slug p) ≡ some p
unfolding to_permission
to_permission-slug manage_events = refl
to_permission-slug manage_matches = refl
to_permission-slug view_stats = refl
to_permission-slug manage_group_settings = refl

to_permissions-slugs : (ps : List Permission) → to_permissions (map slug ps) ≡ ps
unfolding to_permissions
to_permissions-slugs [] = refl
to_permissions-slugs (p ∷ ps) =
    ap (λ o. keep_known o (to_permissions (map slug ps))) (to_permission-slug p)
    ∙ ap (λ l. p ∷ l) (to_permissions-slugs ps)

contains-HasNo : (sep : ℕ) (l : List ℕ) → contains l sep ≡ false → HasNo sep l
contains-HasNo sep [] h = tt
contains-HasNo sep (c ∷ l) h = (ground arith, contains-HasNo sep l (ground arith))

no_comma : (p : Permission) → HasNo b',' (slug p)
no_comma manage_events = contains-HasNo b',' (slug manage_events) refl
no_comma manage_matches = contains-HasNo b',' (slug manage_matches) refl
no_comma view_stats = contains-HasNo b',' (slug view_stats) refl
no_comma manage_group_settings = contains-HasNo b',' (slug manage_group_settings) refl

no_commas : (ps : List Permission) → All (HasNo b',') (map slug ps)
no_commas [] = tt
no_commas (p ∷ ps) = (no_comma p, no_commas ps)

joined_cons :
    (p : Permission) (more : List (List ℕ))
    → (c : ℕ) × (raw : List ℕ) × (join b',' (slug p) more ≡ c ∷ raw)
joined_cons manage_events [] = (_, _, refl)
joined_cons manage_events (x ∷ more) = (_, _, refl)
joined_cons manage_matches [] = (_, _, refl)
joined_cons manage_matches (x ∷ more) = (_, _, refl)
joined_cons view_stats [] = (_, _, refl)
joined_cons view_stats (x ∷ more) = (_, _, refl)
joined_cons manage_group_settings [] = (_, _, refl)
joined_cons manage_group_settings (x ∷ more) = (_, _, refl)

decode_nonempty :
    (l : List ℕ) (c : ℕ) (raw : List ℕ)
    → l ≡ c ∷ raw
    → decode_permissions l ≡ to_permissions ((split_at b',' l).0 ∷ (split_at b',' l).1)
unfolding decode_permissions
decode_nonempty l c raw e = rw e

-- The permissions that are encoded as one text are decoded as the same permissions in their order.
pub decode_permissions-encode_permissions :
    (ps : List Permission) → decode_permissions (encode_permissions ps) ≡ ps
unfolding decode_permissions encode_permissions
decode_permissions-encode_permissions [] = refl
decode_permissions-encode_permissions (p ∷ ps) =
    let whole = joined_cons p (map slug ps) in
    decode_nonempty (join b',' (slug p) (map slug ps)) whole.0 whole.1 whole.2
    ∙ ap (λ t. to_permissions (t.0 ∷ t.1))
        (split_at-join b',' (slug p) (map slug ps) (no_comma p) (no_commas ps))
    ∙ to_permissions-slugs (p ∷ ps)
