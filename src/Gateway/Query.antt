-- ===== src/Gateway/Query.antt =====
-- gateway/src/ccip.ts: which envelope a lookup asks for, and how the answer is wrapped. The ABI
-- coder and the hex functions of viem are parameters.
use zegel.Common.{ℕ, not, Option, List, ltb, if◌then◌else◌, ◌==◌}
use zegel.Common.Text.{Text, codes, text_eq, to_lower_case}
use zegel.Common.Result.{Result, ok, err, ◌>>=◌, ◌>>◌, throw_if, or_throw}
use zegel.Gateway.Failure.{
  Failure, bad_request, call_data_not_hex, call_data_too_short, unsupported_selector,
  undecodable_resolve, inner_too_short, inner_not_data, undecodable_data, node_not_of_name,
}
use zegel.Gateway.Platform.{Platform}
use zegel.Gateway.Dns.{decode_dns_name}

pub record Abi : Type 0 where
  -- viem's `size` in bytes, `slice(x, 0, 4)` and `slice(x, 4)`
  pub size : Text → ℕ
  pub slice_selector : Text → Text
  pub slice_rest : Text → Text
  -- `decodeAbiParameters` at (bytes32, string) and at (bytes, bytes)
  pub decode_node_key : Text → Option (Text × Text)
  pub decode_two_bytes : Text → Option (Text × Text)
  -- `encodeAbiParameters` at (bytes) and at (bytes, uint64, bytes)
  pub encode_bytes : Text → Text
  pub encode_signed : Text → ℕ → Text → Text
  pub hex_to_bytes : Text → List ℕ
  -- `TextDecoder('utf-8', { fatal: true })`
  pub utf8 : List ℕ → Option Text

abbrev pub data_selector : Text
data_selector = codes "0xecbfada3"

abbrev pub resolve_selector : Text
resolve_selector = codes "0x9061b923"

pub data GatewayQuery : Type 0 where
  direct : (node key : Text) → GatewayQuery
  resolve : (name node key : Text) → GatewayQuery

abbrev pub node_of : GatewayQuery → Text
node_of (direct node key) = node
node_of (resolve name node key) = node

abbrev pub key_of : GatewayQuery → Text
key_of (direct node key) = key
key_of (resolve name node key) = key

module _ (v : Platform) (abi : Abi) where
  -- Everything after the selector, or `0x`.
  abbrev tail : Text → Text
  tail x = if abi.size x == 4 then codes "0x" else abi.slice_rest x

  abbrev decode_data_call : Text → Result Failure (Text × Text)
  decode_data_call args = or_throw (abi.decode_node_key args) (bad_request undecodable_data)

  -- The arguments of `resolve(name, request)`.
  unfoldable pub decode_resolve : Text → Result Failure GatewayQuery
  decode_resolve args = do
    (name, request) ← or_throw (abi.decode_two_bytes args) (bad_request undecodable_resolve)
    throw_if (ltb (abi.size request) 4) (bad_request inner_too_short)
    throw_if (not (text_eq (abi.slice_selector request) data_selector)) (bad_request inner_not_data)
    (node, key) ← decode_data_call (tail request)
    decoded_name ← decode_dns_name abi.utf8 (abi.hex_to_bytes name)
    throw_if (not (text_eq (to_lower_case (v.namehash decoded_name)) (to_lower_case node)))
        (bad_request node_not_of_name)
    ok (resolve decoded_name node key)

  abbrev direct_of : Text × Text → Result Failure GatewayQuery
  direct_of (node, key) = ok (direct node key)

  unfoldable pub decode_query : Text → Result Failure GatewayQuery
  decode_query call_data =
      if not (v.is_hex call_data)
      then err (bad_request call_data_not_hex)
      else if ltb (abi.size call_data) 4
      then err (bad_request call_data_too_short)
      else if text_eq (abi.slice_selector call_data) data_selector
      then decode_data_call (tail call_data) >>= direct_of
      else if text_eq (abi.slice_selector call_data) resolve_selector
      then decode_resolve (tail call_data)
      else err (bad_request unsupported_selector)

unfoldable pub encode_result : Abi → GatewayQuery → Text → Text
encode_result abi (direct node key) envelope = envelope
encode_result abi (resolve name node key) envelope = abi.encode_bytes envelope
