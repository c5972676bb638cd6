-- ===== src/Orchestrator/Invitation.antt =====
-- orchestrator/invitation.ts: the links that invite to a conversation or a group.
pub mod RoundTrip
pub mod Accepted
use fuck_chat_control.Base.{
  ℕ, suc, ◌+◌, Bool, true, false, ◌&&◌, ◌||◌, not, Option, none, some, List, [], ◌∷◌, ◌++◌,
  if◌then◌else◌, leb, ◌==◌, length, take, drop, Str,
}
use fuck_chat_control.Base.Result.{Result, ok, err, ◌>>=◌, ◌>>◌, require}
use fuck_chat_control.Protocol.Limits.{conversation_id_bytes}
use fuck_chat_control.Store.Encoding.{bytes_to_hex, hex_to_bytes}

-- errors.ts.
pub data OrchestratorErrorCode : Type 0 where
  malformed_invitation malformed_handshake_message handshake_signature_mismatch identity_changed :
      OrchestratorErrorCode
  not_connected already_started handshake_failed pake_disabled durable_store_write_failed :
      OrchestratorErrorCode

abbrev pub Orchestrated : Type 0 → Type 0
Orchestrated A = Result OrchestratorErrorCode A

abbrev pub every : (ℕ → Bool) → Str → Bool
every test [] = true
every test (c ∷ s) = test c && every test s

abbrev pub is_digit : ℕ → Bool
is_digit c = leb 48 c && leb c 57

-- `[0-9a-f]`.
abbrev pub is_hex_digit : ℕ → Bool
is_hex_digit c = is_digit c || (leb 97 c && leb c 102)

-- `HEX_CHARS_PATTERN`, the six digits, and `HEX_WITH_CODE_PATTERN`.
unfoldable pub is_hex_id : Str → Bool
is_hex_id s = length s == 32 && every is_hex_digit s

unfoldable pub is_code : Str → Bool
is_code s = length s == 6 && every is_digit s

abbrev pub is_tail : Str → Bool
is_tail [] = false
is_tail (c ∷ code) = c == 126 && is_code code

unfoldable pub is_hex_with_code : Str → Bool
is_hex_with_code s = is_hex_id (take 32 s) && is_tail (drop 32 s)

-- `conversationIdToHex`: `toString(16)`, padded to two digits, writes what `bytesToHex` writes.
abbrev pub conversation_id_to_hex : List ℕ → Str
conversation_id_to_hex id = bytes_to_hex id

abbrev pub parsed : Option (List ℕ) → Orchestrated (List ℕ)
parsed none = err malformed_invitation
parsed (some bytes) = ok bytes

-- After the pattern, `Number.parseInt` reads two digits as `hexToBytes` does.
unfoldable pub hex_to_conversation_id : Str → Orchestrated (List ℕ)
hex_to_conversation_id hex = do
  require (is_hex_id hex) malformed_invitation
  parsed (hex_to_bytes hex)

-- `baseUrl.endsWith("#") ? baseUrl.slice(0, -1) : baseUrl`.
abbrev pub trim_hash : Str → Str
trim_hash [] = []
trim_hash (c ∷ []) = if c == 35 then [] else c ∷ []
trim_hash (c ∷ d ∷ s) = c ∷ trim_hash (d ∷ s)

unfoldable pub format_invitation : List ℕ → Str → Str
format_invitation id base_url = trim_hash base_url ++ (35 ∷ conversation_id_to_hex id)

unfoldable pub format_coded_invitation : List ℕ → Str → Str → Str
format_coded_invitation id base_url [] = format_invitation id base_url
format_coded_invitation id base_url (c ∷ code) =
    trim_hash base_url ++ (35 ∷ (conversation_id_to_hex id ++ (126 ∷ c ∷ code)))

-- `toLowerCase`. Beyond ASCII it makes no character that a pattern takes.
abbrev pub lower : ℕ → ℕ
lower c = if leb 65 c && leb c 90 then c + 32 else c

abbrev pub to_lower_case : Str → Str
to_lower_case [] = []
to_lower_case (c ∷ s) = lower c ∷ to_lower_case s

unfoldable pub format_group_invitation : Str → Str → Option Str → Orchestrated Str
format_group_invitation group_id_hex base_url code = do
  id ← hex_to_conversation_id (to_lower_case group_id_hex)
  ok (elim code [
    | none ↦ format_invitation id base_url
    | some code ↦ format_coded_invitation id base_url code
  ])

pub record ParsedInvitation : Type 0 where
  pub conversation_id : List ℕ
  pub code : Option Str

-- `fragment.startsWith("#") ? fragment.slice(1) : fragment`.
abbrev pub strip_hash : Str → Str
strip_hash [] = []
strip_hash (c ∷ s) = if c == 35 then s else c ∷ s

-- `stripped.indexOf("~")`; `none` is -1.
abbrev pub tilde_of : Str → Option ℕ
tilde_of [] = none
tilde_of (c ∷ s) =
    let rest = tilde_of s in
    if c == 126 then some 0 else elim rest [ none ↦ none | some i ↦ some (suc i) ]

abbrev pub parse_coded : Str → Option ℕ → Orchestrated ParsedInvitation
parse_coded stripped none = err malformed_invitation
parse_coded stripped (some tilde) = do
  id ← hex_to_conversation_id (take tilde stripped)
  ok (record { conversation_id = id; code = some (drop (tilde + 1) stripped) })

abbrev pub parse_bare : Str → Orchestrated ParsedInvitation
parse_bare stripped = do
  id ← hex_to_conversation_id stripped
  ok (record { conversation_id = id; code = none })

-- `tildeIdx === 32` with something else than six digits behind it.
abbrev pub is_short_code : Str → Option ℕ → Bool
is_short_code stripped none = false
is_short_code stripped (some tilde) = tilde == 32 && not (is_code (drop (tilde + 1) stripped))

abbrev pub parse_stripped : Str → Orchestrated ParsedInvitation
parse_stripped stripped =
    if is_hex_id stripped
    then parse_bare stripped
    else if is_hex_with_code stripped
    then parse_coded stripped (tilde_of stripped)
    else require (not (is_short_code stripped (tilde_of stripped))) malformed_invitation
      >> parse_bare stripped

unfoldable pub parse_invitation : Str → Orchestrated ParsedInvitation
parse_invitation fragment = parse_stripped (to_lower_case (strip_hash fragment))
