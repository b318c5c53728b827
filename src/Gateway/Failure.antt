-- ===== src/Gateway/Failure.antt =====
-- gateway/src/errors.ts: the errors that carry an HTTP status. A message is the constructor that
-- stands for it, without the values that the source writes into it.
use zegel.Common.{ℕ}

pub data Reason : Type 0 where
  not_json not_an_object wrong_schema : Reason
  bad_reference_id bad_commitment : Reason
  bad_issued_at bad_expires_at expiry_not_after_issue : Reason
  no_tiers tier_not_an_object bad_tier_number bad_swarm_ref bad_act_history bad_publisher : Reason
  bad_anchors bad_hint bad_hint_contract bad_hint_chain : Reason
  authorisation_expired authorisation_too_long envelope_expired : Reason
  stale_nonce no_known_owner not_the_owner : Reason
  sender_mismatch unknown_resolver wrong_key not_published expired_on_lookup : Reason
  call_data_not_hex call_data_too_short unsupported_selector undecodable_resolve : Reason
  inner_too_short inner_not_data undecodable_data node_not_of_name undecodable_name : Reason
  read_only_store store_unreadable missing_string not_an_address : Reason
  store_not_json wrong_store_schema : Reason

-- `unclassified` is any exception that is no `GatewayError`.
pub data Failure : Type 0 where
  gateway : ℕ → Reason → Failure
  unclassified : Failure

abbrev pub bad_request : Reason → Failure
bad_request = gateway 400

abbrev pub unauthorized : Reason → Failure
unauthorized = gateway 401

abbrev pub not_found : Reason → Failure
not_found = gateway 404

abbrev pub conflict : Reason → Failure
conflict = gateway 409

abbrev pub gone : Reason → Failure
gone = gateway 410

abbrev pub unavailable : Reason → Failure
unavailable = gateway 503

-- The status that `app.onError` answers with.
abbrev pub http_status : Failure → ℕ
http_status (gateway status reason) = status
http_status unclassified = 500
