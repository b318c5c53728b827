-- ===== src/Contracts/Anchor/Laws.antt =====
-- contracts/src/ZegelAnchor.sol: what holds of a reference after any transactions.
use zegel.Common.{ℕ, ◌≡◌, refl, sym, subst, All, ◌∙◌, ◌≢◌, ◌↔◌, true, List, [], ◌∷◌, arith}
use zegel.Common.Result.{ok}
use zegel.Contracts.Anchor.{
  Anchor, Anchors, Call, anchor_call, revoke_call, valid, revoked, uint64, issuer_for, anchor,
  revoke, verify, is_valid, execute, execute_all,
}

-- Anchored, and revoked.
abbrev pub IsRevoked : Anchor → Type 0
IsRevoked a = (a.anchored_at ≢ 0) × (a.revoked_at ≢ 0)

execute-IsRevoked : (c : Call) (m : Anchors) (id : ℕ) → IsRevoked (m id) → execute c m id ≡ m id
unfolding execute anchor issuer_for revoke
execute-IsRevoked (anchor_call s t r k e) m id h = ground arith
execute-IsRevoked (revoke_call s t r n) m id h = ground arith

execute_all-IsRevoked :
    (cs : List Call) (m : Anchors) (id : ℕ) → IsRevoked (m id) → execute_all cs m id ≡ m id
unfolding execute_all
execute_all-IsRevoked [] m id h = refl
execute_all-IsRevoked (c ∷ cs) m id h =
    let e = execute-IsRevoked c m id h in
    execute_all-IsRevoked cs (execute c m) id (subst IsRevoked (sym e) h) ∙ e

IsRevoked-revoke :
    (sender time reference reason_length : ℕ) (m m' : Anchors)
    → uint64 time ≢ 0
    → revoke sender time reference reason_length m ≡ ok m'
    → IsRevoked (m' reference)
unfolding revoke
IsRevoked-revoke sender time reference n m m' nonzero h = ground arith

-- Once a revoke call has succeeded, at a time that is not 0 modulo 2 to the 64, whatever
-- transactions follow, every check of the reference, at any time and for any commitment, says
-- revoked.
pub verify-revoke :
    (sender time reference reason_length : ℕ) (m m' : Anchors) (cs : List Call)
    (later commitment : ℕ)
    → uint64 time ≢ 0
    → revoke sender time reference reason_length m ≡ ok m'
    → verify later reference commitment (execute_all cs m') ≡ revoked
unfolding revoke verify
verify-revoke sender time reference n m m' cs later commitment nonzero h =
    let r = IsRevoked-revoke sender time reference n m m' nonzero h in
    let e = execute_all-IsRevoked cs m' reference r in rw e (ground arith)

-- A check says valid exactly if the reference is valid and the commitment is the anchored one.
verify_iff_valid :
    (time reference commitment : ℕ) (m : Anchors)
    → (verify time reference commitment m ≡ valid)
      ↔ ((is_valid time reference m ≡ true) × ((m reference).commitment ≡ commitment))
unfolding verify is_valid
verify_iff_valid time reference commitment m = ground arith

-- Calls by others than the issuer of an anchored reference.
abbrev pub sender_of : Call → ℕ
sender_of (anchor_call s t r k e) = s
sender_of (revoke_call s t r n) = s

execute_stranger :
    (c : Call) (m : Anchors) (id : ℕ)
    → (m id).anchored_at ≢ 0
    → sender_of c ≢ (m id).issuer
    → execute c m id ≡ m id
unfolding execute anchor issuer_for revoke
execute_stranger (anchor_call s t r k e) m id h d = ground arith
execute_stranger (revoke_call s t r n) m id h d = ground arith

-- Transactions of which none is sent by the issuer of an anchored reference leave its anchor as
-- it was.
execute_all-strangers :
    (cs : List Call) (m : Anchors) (id : ℕ)
    → (m id).anchored_at ≢ 0
    → All (λ c. sender_of c ≢ (m id).issuer) cs
    → execute_all cs m id ≡ m id
unfolding execute_all
execute_all-strangers [] m id h strangers = refl
execute_all-strangers (c ∷ cs) m id h (s, strangers) =
    let e = execute_stranger c m id h s in
    execute_all-strangers cs (execute c m) id (rw e h)
      (subst (λ a. All (λ d. sender_of d ≢ a.issuer) cs) (sym e) strangers)
    ∙ e
