-- ===== src/Transport/Report.antt =====
-- `encode_health_report` and `decode_health_report` of crates/transport/src/lib.rs, on the characters
-- of the report.
pub mod RoundTrip
use irohsion.Prelude.{
  ℕ, ◌≡◌, ◌==◌, if◌then◌else◌, Bool, true, false, not, List, [], ◌∷◌, ◌++◌, map, Option, none, some,
  Result, ok, err, All,
}
use irohsion.Prelude.Bytes.{bytes_eq}
use irohsion.Transport.Text.{IsPlain, tab, newline, encode_health_text, decode_health_text}
use irohsion.Transport.Decimal.{to_string, parse_u64}
use irohsion.Transport.Fields.{split, lines, tabbed, ended}

-- `f32`, with `format!("{:.4}")` and `parse`. Rust documents that what is formatted is parsed back,
-- here to `rounded`, and formats with digits, signs, points and letters only.
pub record Float32 : Type 1 where
  pub F : Type 0
  pub format : F → List ℕ
  pub parse : List ℕ → Option F
  pub rounded : F → F
  pub parse-format : (x : F) → parse (format x) ≡ some (rounded x)
  pub format-IsPlain : (x : F) → All IsPlain (format x)

-- The contexts of the errors.
pub data ReportError : Type 0 where
  missing_header : ReportError
  missing_magic : ReportError
  unexpected_magic : ReportError
  missing_seq : ReportError
  invalid_seq : ReportError
  missing_unix_ms : ReportError
  invalid_unix_ms : ReportError
  missing_row_kind : ReportError
  missing_chat_id : ReportError
  invalid_chat_id : ReportError
  missing_chat_unix_ms : ReportError
  invalid_chat_unix_ms : ReportError
  missing_chat_user : ReportError
  missing_chat_text : ReportError
  unexpected_row_kind : ReportError
  missing_endpoint_id : ReportError
  invalid_endpoint_row : ReportError
  invalid_throughput : ReportError
  invalid_last_seq : ReportError
  invalid_max_seq : ReportError

infixl 5 ◌>>=◌
abbrev pub ◌>>=◌ :
    {A B : Type 0} → Result ReportError A → (A → Result ReportError B) → Result ReportError B
ok a >>= f = f a
err e >>= f = err e

pub record ChatMessage : Type 0 where
  pub id : ℕ
  pub unix_ms : ℕ
  pub user : List ℕ
  pub text : List ℕ

-- `HEALTH_REPORT_MAGIC`
abbrev pub health_report_magic : List ℕ
health_report_magic =
    b'i' ∷ b'r' ∷ b'o' ∷ b'h' ∷ b's' ∷ b'i' ∷ b'o' ∷ b'n' ∷ b'-' ∷ b'h' ∷ b'e' ∷ b'a' ∷ b'l' ∷ b't'
    ∷ b'h' ∷ b'/' ∷ b'v' ∷ b'2' ∷ []

abbrev pub endpoint_kind : List ℕ
endpoint_kind = b'e' ∷ b'n' ∷ b'd' ∷ b'p' ∷ b'o' ∷ b'i' ∷ b'n' ∷ b't' ∷ []

abbrev pub chat_kind : List ℕ
chat_kind = b'c' ∷ b'h' ∷ b'a' ∷ b't' ∷ []

abbrev pub dash : List ℕ
dash = b'-' ∷ []

-- `.next().context(…)`
abbrev pub next : ReportError → List (List ℕ) → Result ReportError (List ℕ × List (List ℕ))
next missing [] = err missing
next missing (field ∷ fields) = ok (field, fields)

-- `.parse().context(…)`
unfoldable pub number : ReportError → List ℕ → Result ReportError ℕ
number invalid field = elim (parse_u64 field) [ some n ↦ ok n | none ↦ err invalid ]

abbrev pub optional : Option ℕ → List ℕ
optional none = dash
optional (some n) = to_string n

unfoldable pub chat_line : ChatMessage → List ℕ
chat_line m = tabbed (
    chat_kind
    ∷ to_string m.id
    ∷ to_string m.unix_ms
    ∷ encode_health_text m.user
    ∷ encode_health_text m.text
    ∷ [])

unfoldable pub decode_chat : List (List ℕ) → Result ReportError ChatMessage
unfolding number
decode_chat fields = do
  (id_field, fields) ← next missing_chat_id fields
  id ← number invalid_chat_id id_field
  (time_field, fields) ← next missing_chat_unix_ms fields
  unix_ms ← number invalid_chat_unix_ms time_field
  (user, fields) ← next missing_chat_user fields
  (text, fields) ← next missing_chat_text fields
  ok (record {
    id = id;
    unix_ms = unix_ms;
    user = decode_health_text user;
    text = decode_health_text text;
  })

-- A number, or a dash for none.
unfoldable pub decode_seq : ReportError → List ℕ → Result ReportError (Option ℕ)
unfolding number
decode_seq invalid field =
    if bytes_eq field dash then ok none else number invalid field >>= λ n. ok (some n)

module _ (float : Float32) where
  pub record EndpointHealth : Type 0 where
    pub endpoint_id : List ℕ
    pub achieved_mbps : float.F
    pub last_seq : Option ℕ
    pub max_seq : Option ℕ

  pub record HealthReport : Type 0 where
    pub seq : ℕ
    pub unix_ms : ℕ
    pub endpoints : List EndpointHealth
    pub chat : List ChatMessage

  unfoldable pub endpoint_line : EndpointHealth → List ℕ
  endpoint_line e = tabbed (
      endpoint_kind
      ∷ e.endpoint_id
      ∷ float.format e.achieved_mbps
      ∷ optional e.last_seq
      ∷ optional e.max_seq
      ∷ [])

  unfoldable pub header_line : HealthReport → List ℕ
  header_line r = tabbed (health_report_magic ∷ to_string r.seq ∷ to_string r.unix_ms ∷ [])

  unfoldable pub encode_health_report : HealthReport → List ℕ
  unfolding header_line endpoint_line chat_line
  encode_health_report r =
      ended (header_line r ∷ (map endpoint_line r.endpoints ++ map chat_line r.chat))

  -- The three fields behind the identifier, by how many there are; the oldest form has one more.
  abbrev pub endpoint_values :
      List (List ℕ) → Result ReportError (List ℕ × List ℕ × Option (List ℕ))
  endpoint_values (mbps ∷ last_seq ∷ []) = ok (mbps, last_seq, none)
  endpoint_values (mbps ∷ last_seq ∷ max_seq ∷ []) = ok (mbps, last_seq, some max_seq)
  endpoint_values (target ∷ mbps ∷ last_seq ∷ max_seq ∷ []) = ok (mbps, last_seq, some max_seq)
  endpoint_values _ = err invalid_endpoint_row

  abbrev pub or_last : Option ℕ → Option ℕ → Option ℕ
  or_last last_seq none = last_seq
  or_last last_seq (some max_seq) = some max_seq

  unfoldable pub decode_max : Option ℕ → Option (List ℕ) → Result ReportError (Option ℕ)
  unfolding decode_seq
  decode_max last_seq none = ok last_seq
  decode_max last_seq (some field) =
      decode_seq invalid_max_seq field >>= λ max_seq. ok (or_last last_seq max_seq)

  unfoldable pub decode_endpoint : List (List ℕ) → Result ReportError EndpointHealth
  unfolding decode_seq decode_max
  decode_endpoint fields = do
    (endpoint_id, fields) ← next missing_endpoint_id fields
    (mbps_field, last_field, max_field) ← endpoint_values fields
    mbps ← elim (float.parse mbps_field) [ some x ↦ ok x | none ↦ err invalid_throughput ]
    last_seq ← decode_seq invalid_last_seq last_field
    max_seq ← decode_max last_seq max_field
    ok (record {
      endpoint_id = endpoint_id;
      achieved_mbps = mbps;
      last_seq = last_seq;
      max_seq = max_seq;
    })

  pub data Row : Type 0 where
    blank : Row
    chat_row : ChatMessage → Row
    endpoint_row : EndpointHealth → Row

  -- The `if`s on the kind of a row.
  unfoldable pub decode_kind : List ℕ → List (List ℕ) → Result ReportError Row
  unfolding decode_chat decode_endpoint
  decode_kind kind fields =
      if bytes_eq kind chat_kind
      then (decode_chat fields >>= λ m. ok (chat_row m))
      else if not (bytes_eq kind endpoint_kind)
      then err unexpected_row_kind
      else decode_endpoint fields >>= λ e. ok (endpoint_row e)

  -- The body of the loop over the lines.
  unfoldable pub decode_row : List ℕ → Result ReportError Row
  unfolding decode_kind
  decode_row [] = ok blank
  decode_row (c ∷ line) = next missing_row_kind (split tab (c ∷ line)) >>= λ r. decode_kind r.0 r.1

  abbrev pub add_row :
      Row → List EndpointHealth × List ChatMessage → List EndpointHealth × List ChatMessage
  add_row blank r = r
  add_row (chat_row m) r = (r.0, m ∷ r.1)
  add_row (endpoint_row e) r = (e ∷ r.0, r.1)

  unfoldable pub decode_rows :
      List (List ℕ) → Result ReportError (List EndpointHealth × List ChatMessage)
  unfolding decode_row
  decode_rows [] = ok ([], [])
  decode_rows (line ∷ rest) = do
    row ← decode_row line
    later ← decode_rows rest
    ok (add_row row later)

  unfoldable pub decode_health_report : List ℕ → Result ReportError HealthReport
  unfolding number decode_rows
  decode_health_report text = do
    (header, rows) ← next missing_header (lines text)
    (magic, fields) ← next missing_magic (split tab header)
    (seq_field, fields) ←
        if bytes_eq magic health_report_magic then next missing_seq fields else err unexpected_magic
    seq ← number invalid_seq seq_field
    (time_field, fields) ← next missing_unix_ms fields
    unix_ms ← number invalid_unix_ms time_field
    (endpoints, chat) ← decode_rows rows
    ok (record { seq = seq; unix_ms = unix_ms; endpoints = endpoints; chat = chat })
