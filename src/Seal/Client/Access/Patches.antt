-- ===== src/Seal/Client/Access/Patches.antt =====
-- packages/seal/src/client.ts, `patchGrantees`: what a patch that succeeds has done.
use zegel.Common.{
  ◌≡◌, refl, subst, ◌↔◌, ◌≢◌, true, not, some, List, [], ◌∷◌, ◌++◌, arith, inl, inr, Option-cases,
  Bool-cases,
}
use zegel.Common.Text.{Text}
use zegel.Common.Result.{ok, Result-cases}
use zegel.Seal.Pubkey.{normalise_grantees}
use zegel.Seal.Refs.{swarm_reference, history_address}
use zegel.Seal.Receipt.{SealReceipt}
use zegel.Seal.Client.{Backend, Services, Event, patches_list}
use zegel.Seal.Client.Access.{GranteeListReceipt, is_empty, patch, patch_grantees}

is_empty_iff : (xs : List Text) → (not (is_empty xs) ≡ true) ↔ (xs ≢ [])
is_empty_iff [] = (λ h. absurd cc, λ h. absurd (h refl))
is_empty_iff (x ∷ xs) = (λ h e. absurd cc, λ h. refl)

module _ (b : Backend) (s : Services) where
  -- The node took one patch of the receipt's list, with the keys in their normal form.
  pub record IsPatched (r : SealReceipt) (add revoke : List Text) (g : GranteeListReceipt)
      (t t' : List Event) : Type 0 where
    pub managed : b.can_manage_grantees ≡ true
    pub list : Text
    pub has_list : r.grantee_list_ref ≡ some list
    pub adds : normalise_grantees s.on_curve add ≡ ok g.added
    pub revokes : normalise_grantees s.on_curve revoke ≡ ok g.revoked
    pub called : t' ≡ t ++ patches_list list r.act_history_address g.added g.revoked ∷ []
    pub rotation : (g.rotation_required ≡ true) ↔ (g.revoked ≢ [])
    pub answer : Text × Text
    pub answered : b.patch list r.act_history_address g.added g.revoked ≡ ok answer
    pub reference : swarm_reference answer.0 ≡ ok g.grantee_list_ref
    pub history : history_address answer.1 ≡ ok g.act_history_address

  patch-IsPatched :
      (r : SealReceipt) (add revoke xs ys : List Text) (g : GranteeListReceipt) (t t' : List Event)
      → normalise_grantees s.on_curve add ≡ ok xs
      → normalise_grantees s.on_curve revoke ≡ ok ys
      → patch b s r xs ys t ≡ (ok g, t')
      → IsPatched r add revoke g t t'
  unfolding patch
  patch-IsPatched r add revoke xs ys g t t' a v h = elim (Bool-cases b.can_manage_grantees) [
    | inr cannot ↦ absurd (ground arith)
    | inl can ↦ elim (Option-cases r.grantee_list_ref) [
      | inl n ↦ absurd (ground arith)
      | inr (list, n) ↦ elim (Result-cases (b.patch list r.act_history_address xs ys)) [
        | inr (e, p) ↦ absurd (ground arith)
        | inl ((ref, hist), p) ↦ elim (Result-cases (swarm_reference ref)) [
          | inr (e, q) ↦ absurd (ground arith)
          | inl (list_ref, q) ↦ elim (Result-cases (history_address hist)) [
            | inr (e, w) ↦ absurd (ground arith)
            | inl (address, w) ↦
                let same : record {
                  grantee_list_ref = list_ref;
                  act_history_address = address;
                  added = xs;
                  revoked = ys;
                  rotation_required = not (is_empty ys);
                }
                    ≡ g =
                  ground arith in
                subst (λ x. IsPatched r add revoke x t t') same
                  (record {
                    managed = can;
                    list = list;
                    has_list = n;
                    adds = a;
                    revokes = v;
                    called = ground arith;
                    rotation = is_empty_iff ys;
                    answer = (ref, hist);
                    answered = p;
                    reference = q;
                    history = w;
                  })
          ]
        ]
      ]
    ]
  ]

  -- A patch of the grantees that succeeds has made one call, with both lists of keys in normal
  -- form, for the list that the receipt names, on an endpoint with grantee lists; it returns the
  -- list and history of the answer in normal form, and asks for rotation exactly if a key was
  -- revoked.
  patch_grantees-IsPatched :
      (r : SealReceipt) (add revoke : List Text) (g : GranteeListReceipt) (t t' : List Event)
      → patch_grantees b s r add revoke t ≡ (ok g, t')
      → IsPatched r add revoke g t t'
  unfolding patch_grantees
  patch_grantees-IsPatched r add revoke g t t' h =
      elim (Result-cases (normalise_grantees s.on_curve add)) [
        | inr (e, a) ↦ absurd (ground arith)
        | inl (xs, a) ↦ elim (Result-cases (normalise_grantees s.on_curve revoke)) [
          | inr (e, v) ↦ absurd (ground arith)
          | inl (ys, v) ↦ patch-IsPatched r add revoke xs ys g t t' a v (ground arith)
        ]
      ]
