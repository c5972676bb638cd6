-- ===== src/Orchestrator/Tests.antt =====
-- Invitations on concrete inputs.
use fuck_chat_control.Base.{ℕ, ◌≡◌, inr, refl, some, List, ◌++◌, replicate, str, Str}
use fuck_chat_control.Base.Result.{ok, err}
use fuck_chat_control.Protocol.Bytes.{are_bytes-Bytes}
use fuck_chat_control.Store.Encoding.{hex_to_bytes}
use fuck_chat_control.Orchestrator.Invitation.{
  is_hex_id, is_code, is_hex_with_code, hex_to_conversation_id, trim_hash, format_coded_invitation,
  to_lower_case, strip_hash, ParsedInvitation, parse_invitation, malformed_invitation,
}
use fuck_chat_control.Orchestrator.Invitation.RoundTrip.{parse_invitation-format_coded_invitation}
use fuck_chat_control.Orchestrator.Invitation.Accepted.{IsWrittenBy, parse_invitation-IsWrittenBy}

abbrev id : List ℕ
id = replicate 16 171

abbrev code : Str
code = str "004217"

abbrev invitation : ParsedInvitation
invitation = record { conversation_id = id; code = some code }

abbrev pasted : Str
pasted = str "#ABABABABABABABABABABABABABABABAB~004217"

pasted-is_parsed : parse_invitation pasted ≡ ok invitation
unfolding parse_invitation hex_to_conversation_id is_hex_id is_hex_with_code is_code hex_to_bytes
pasted-is_parsed = refl

five_digits :
    parse_invitation (str "abababababababababababababababab~00421") ≡ err malformed_invitation
unfolding parse_invitation hex_to_conversation_id is_hex_id is_hex_with_code is_code
five_digits = refl

parse_invitation-format_coded_invitation_example :
    (fragment : Str) × ((format_coded_invitation id (str "https://chat.example/join#") code
        ≡ trim_hash (str "https://chat.example/join#") ++ fragment)
      × (parse_invitation fragment ≡ ok invitation))
unfolding is_code
parse_invitation-format_coded_invitation_example =
    parse_invitation-format_coded_invitation id (str "https://chat.example/join#") code
      (are_bytes-Bytes id refl) refl (inr refl)

parse_invitation-IsWrittenBy_example : IsWrittenBy (to_lower_case (strip_hash pasted)) invitation
parse_invitation-IsWrittenBy_example =
    parse_invitation-IsWrittenBy pasted invitation pasted-is_parsed
