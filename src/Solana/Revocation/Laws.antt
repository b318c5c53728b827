-- ===== src/Solana/Revocation/Laws.antt =====
-- solana/src/verify.ts, `findRevocation`: what the evidence of a revocation is.
use zegel.Common.{
  ◌≡◌, refl, sym, ◌⊎◌, inl, inr, Option, none, some, List, [], ◌∷◌, take, Any, arith, Option-cases,
}
use zegel.Common.Text.{Text, text_eq_iff}
use zegel.Solana.Revocation.{
  close_attestation, close_tokenized_attestation, ClosingInstruction, close, close_tokenized,
  ParsedInstruction, Transaction, SignatureInfo, RevocationEvidence, HistoryNode,
  max_history_transactions, closing_of, first_closing, candidates, identify_closing_instruction,
  successful, evidence_of, first_evidence, find_revocation,
}

-- An instruction to the attestation program that sas-lib identifies as a close.
abbrev pub IsClose : HistoryNode → ClosingInstruction → ParsedInstruction → Type 0
IsClose node c i =
    (data_text : Text) × (i.program_id ≡ some node.sas_program)
    × (i.data_text ≡ some data_text)
    × (((node.identify data_text ≡ some close_attestation) × (c ≡ close))
        ⊎ ((node.identify data_text ≡ some close_tokenized_attestation) × (c ≡ close_tokenized)))

closing_of-IsClose :
    (node : HistoryNode) (i : ParsedInstruction) (c : ClosingInstruction)
    → closing_of node i ≡ some c
    → IsClose node c i
unfolding closing_of
closing_of-IsClose node i c h = elim (Option-cases i.program_id) [
  | inl e ↦ absurd (ground arith)
  | inr (p, e) ↦ elim (Option-cases i.data_text) [
    | inl f ↦ absurd (ground arith)
    | inr (t, f) ↦ let same = text_eq_iff p node.sas_program in (t, ground arith, f, ground arith)
  ]
]

first_closing-Any :
    (node : HistoryNode) (is : List ParsedInstruction) (c : ClosingInstruction)
    → first_closing node is ≡ some c
    → Any (IsClose node c) is
unfolding first_closing
first_closing-Any node [] c h = absurd (cc)
first_closing-Any node (i ∷ is) c h = elim (Option-cases (closing_of node i)) [
  | inl e ↦ inr (first_closing-Any node is c (ground arith))
  | inr (d, e) ↦ inl (closing_of-IsClose node i c (ground arith))
]

-- The evidence is of a transaction that has such an instruction.
abbrev pub IsEvidence : HistoryNode → RevocationEvidence → SignatureInfo → Type 0
IsEvidence node e s =
    (tx : Transaction) × (node.transaction s.signature ≡ some (some tx))
    × Any (IsClose node e.instruction) (candidates tx)
    × (e ≡ evidence_of s e.instruction)

identify-IsEvidence :
    (node : HistoryNode) (s : SignatureInfo) (c : ClosingInstruction)
    → identify_closing_instruction node s.signature ≡ some c
    → IsEvidence node (evidence_of s c) s
unfolding identify_closing_instruction
identify-IsEvidence node s c h = go (node.transaction s.signature) refl
  where
    go :
        (o : Option (Option Transaction))
        → node.transaction s.signature ≡ o
        → IsEvidence node (evidence_of s c) s
    go none e = absurd (ground arith)
    go (some none) e = absurd (ground arith)
    go (some (some tx)) e = (tx, e, first_closing-Any node (candidates tx) c (ground arith), refl)

first_evidence-Any :
    (node : HistoryNode) (ss : List SignatureInfo) (e : RevocationEvidence)
    → first_evidence node ss ≡ some e
    → Any (IsEvidence node e) ss
unfolding first_evidence
first_evidence-Any node [] e h = absurd (cc)
first_evidence-Any node (s ∷ ss) e h =
    elim (Option-cases (identify_closing_instruction node s.signature)) [
      | inl f ↦ inr (first_evidence-Any node ss e (ground arith))
      | inr (c, f) ↦
          let same : evidence_of s c ≡ e = ground arith in
          inl (rw (sym same) (identify-IsEvidence node s c f))
    ]

pub find_revocation-Any :
    (node : HistoryNode) (e : RevocationEvidence)
    → (find_revocation node).evidence ≡ some e
    → (signatures : List SignatureInfo) × (node.signatures ≡ some signatures)
      × Any (IsEvidence node e) (take max_history_transactions (successful signatures))
unfolding find_revocation
find_revocation-Any node e h = elim (Option-cases node.signatures) [
  | inl f ↦ absurd (ground arith)
  | inr (ss, f) ↦ (
    ss,
    f,
    first_evidence-Any node (take max_history_transactions (successful ss)) e (ground arith),
  )
]
