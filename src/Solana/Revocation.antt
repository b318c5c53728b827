-- ===== src/Solana/Revocation.antt =====
-- solana/src/verify.ts, `findRevocation`: an absent attestation was revoked if one of the newest
-- transactions at its address closes an attestation. What the node and sas-lib answer is a parameter.
pub mod Laws
use zegel.Common.{
  ℕ, Bool, true, false, not, Option, none, some, List, [], ◌∷◌, ◌++◌, length, take, ◌==◌,
  if◌then◌else◌,
}
use zegel.Common.Text.{Text, text_eq}

-- `SolanaAttestationServiceInstruction`, as far as it is told apart.
pub data InstructionKind : Type 0 where
  close_attestation close_tokenized_attestation other_instruction : InstructionKind

pub data ClosingInstruction : Type 0 where
  close close_tokenized : ClosingInstruction

pub record ParsedInstruction : Type 0 where
  pub program_id : Option Text
  pub data_text : Option Text

pub record Transaction : Type 0 where
  pub instructions : List ParsedInstruction
  pub inner : List (List ParsedInstruction)

pub record SignatureInfo : Type 0 where
  pub signature : Text
  pub slot : ℕ
  pub failed : Bool
  pub block_time : Option ℕ

pub record RevocationEvidence : Type 0 where
  pub signature : Text
  pub slot : ℕ
  pub block_time : Option ℕ
  pub instruction : ClosingInstruction

pub record RevocationSearch : Type 0 where
  pub evidence : Option RevocationEvidence
  pub successful_signatures : ℕ

-- The node: `none` is a call that throws. `transaction` answers `null` as `some none`.
pub record HistoryNode : Type 0 where
  pub signatures : Option (List SignatureInfo)
  pub transaction : Text → Option (Option Transaction)
  pub sas_program : Text
  -- `identifySolanaAttestationServiceInstruction` on the decoded data
  pub identify : Text → Option InstructionKind

abbrev pub max_history_transactions : ℕ
max_history_transactions = 5

abbrev is_empty : Text → Bool
is_empty [] = true
is_empty (c ∷ cs) = false

abbrev closing_kind : Option InstructionKind → Option ClosingInstruction
closing_kind (some close_tokenized_attestation) = some close_tokenized
closing_kind (some close_attestation) = some close
closing_kind _ = none

abbrev sas_data : HistoryNode → Text → Option Text → Option ClosingInstruction
sas_data node program none = none
sas_data node program (some data_text) =
    if not (text_eq program node.sas_program)
    then none
    else if is_empty data_text
    then none
    else closing_kind (node.identify data_text)

-- One round of the loop over the instructions: what it returns, if it returns.
unfoldable pub closing_of : HistoryNode → ParsedInstruction → Option ClosingInstruction
closing_of node i = elim i.program_id [
  | none ↦ none
  | some program ↦ sas_data node program i.data_text
]

unfoldable pub first_closing : HistoryNode → List ParsedInstruction → Option ClosingInstruction
first_closing node [] = none
first_closing node (i ∷ is) = elim (closing_of node i) [
  | some c ↦ some c
  | none ↦ first_closing node is
]

unfoldable pub flat : List (List ParsedInstruction) → List ParsedInstruction
flat [] = []
flat (g ∷ gs) = g ++ flat gs

abbrev pub candidates : Transaction → List ParsedInstruction
candidates tx = tx.instructions ++ flat tx.inner

unfoldable pub identify_closing_instruction : HistoryNode → Text → Option ClosingInstruction
identify_closing_instruction node signature = elim (node.transaction signature) [
  | none ↦ none
  | some none ↦ none
  | some (some tx) ↦ first_closing node (candidates tx)
]

unfoldable pub successful : List SignatureInfo → List SignatureInfo
successful [] = []
successful (s ∷ ss) = if s.failed then successful ss else s ∷ successful ss

abbrev pub evidence_of : SignatureInfo → ClosingInstruction → RevocationEvidence
evidence_of s c = record {
  signature = s.signature;
  slot = s.slot;
  block_time = s.block_time;
  instruction = c;
}

-- The loop over the newest transactions.
unfoldable pub first_evidence : HistoryNode → List SignatureInfo → Option RevocationEvidence
first_evidence node [] = none
first_evidence node (s ∷ ss) = elim (identify_closing_instruction node s.signature) [
  | some c ↦ some (evidence_of s c)
  | none ↦ first_evidence node ss
]

unfoldable pub find_revocation : HistoryNode → RevocationSearch
find_revocation node = elim node.signatures [
  | none ↦ record { evidence = none; successful_signatures = 0 }
  | some signatures ↦ record {
    evidence = first_evidence node (take max_history_transactions (successful signatures));
    successful_signatures = length (successful signatures);
  }
]
