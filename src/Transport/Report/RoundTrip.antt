-- ===== src/Transport/Report/RoundTrip.antt =====
-- A health report that the server of irohsion encodes (crates/transport/src/lib.rs) is decoded by the
-- client to the same report, up to the digits that the rate is printed with.
use irohsion.Prelude.{
  ℕ, ◌<◌, ◌^◌, ◌≡◌, refl, ◌∙◌, arith, false, List, [], ◌∷◌, ◌++◌, map, Option, none, some, ok, All,
  All-append,
}
use irohsion.Prelude.Bytes.{bytes_eq}
use irohsion.Transport.Text.{
  IsPlain, tab, encode_health_text, decode-encode_health_text, encode_health_text-IsPlain,
}
use irohsion.Transport.Decimal.{to_string, parse_u64-to_string, to_string-IsDigit, IsDigit}
use irohsion.Transport.Fields.{tabbed, split-tabbed, lines-ended, IsLineChar}
use irohsion.Transport.Report.{
  Float32, ReportError, ChatMessage, EndpointHealth, HealthReport, chat_line, endpoint_line,
  header_line, encode_health_report, decode_health_report, decode_chat, decode_endpoint, decode_seq,
  decode_max, decode_kind, decode_row, decode_rows, chat_row, endpoint_row, or_last, optional,
  chat_kind, endpoint_kind, health_report_magic, dash, number, next, invalid_seq, invalid_unix_ms,
  invalid_chat_id, invalid_chat_unix_ms, invalid_last_seq, invalid_max_seq,
}

-- The numbers of a message fit 64 bits.
abbrev pub IsMessage : ChatMessage → Type 0
IsMessage m = (m.id < 2 ^ 64) × (m.unix_ms < 2 ^ 64)

abbrev Fits : Option ℕ → Type 0
Fits none = Unit {0}
Fits (some n) = n < 2 ^ 64

pub digits-IsPlain : (n : ℕ) → All IsPlain (to_string n)
digits-IsPlain n = go (to_string n) (to_string-IsDigit n)
  where
    go : (xs : List ℕ) → All IsDigit xs → All IsPlain xs
    go [] h = tt
    go (x ∷ xs) h = ((ground arith, ground arith, ground arith), go xs h.1)

optional-IsPlain : (o : Option ℕ) → All IsPlain (optional o)
optional-IsPlain none = ground arith
optional-IsPlain (some n) = digits-IsPlain n

-- The first digit of a number is no dash.
to_string_no_dash : (n : ℕ) → bytes_eq (to_string n) dash ≡ false
to_string_no_dash n = go (to_string n) (to_string-IsDigit n)
  where
    go : (xs : List ℕ) → All IsDigit xs → bytes_eq xs dash ≡ false
    go [] h = refl
    go (x ∷ xs) h = ground arith

number-to_string : (e : ReportError) (n : ℕ) → n < 2 ^ 64 → number e (to_string n) ≡ ok n
unfolding number
number-to_string e n h = rw (parse_u64-to_string n h, number) refl

decode_seq-optional : (e : ReportError) (o : Option ℕ) → Fits o → decode_seq e (optional o) ≡ ok o
unfolding decode_seq
decode_seq-optional e none h = refl
decode_seq-optional e (some n) h = rw (to_string_no_dash n, number-to_string e n h) refl

decode_chat-fields :
    (m : ChatMessage)
    → IsMessage m
    → decode_chat (
        to_string m.id
        ∷ to_string m.unix_ms
        ∷ encode_health_text m.user
        ∷ encode_health_text m.text
        ∷ [])
      ≡ ok m
unfolding decode_chat
decode_chat-fields m h =
    rw
      (
        number-to_string invalid_chat_id m.id h.0,
        number-to_string invalid_chat_unix_ms m.unix_ms h.1,
        decode-encode_health_text m.user,
        decode-encode_health_text m.text,
      )
      refl

line_chars : (xs : List ℕ) → All IsPlain xs → All IsLineChar xs
line_chars [] h = tt
line_chars (x ∷ xs) h = ((h.0.1, h.0.2), line_chars xs h.1)

tabbed_line :
    (field : List ℕ) (fields : List (List ℕ))
    → All IsPlain field
    → All (λ f. All IsPlain f) fields
    → All IsLineChar (tabbed (field ∷ fields))
tabbed_line field [] h k = line_chars field h
tabbed_line field (next ∷ fields) h k =
    All-append IsLineChar field (tab ∷ tabbed (next ∷ fields)) (line_chars field h)
      ((ground arith, ground arith), tabbed_line next fields k.0 k.1)

kind-IsPlain : All IsPlain chat_kind × All IsPlain endpoint_kind × All IsPlain health_report_magic
kind-IsPlain = (ground arith, ground arith, ground arith)

-- A row of fields whose first is not empty is split into them.
decode_row-tabbed :
    (float : Float32) (c : ℕ) (kind : List ℕ) (fields : List (List ℕ))
    → All IsPlain (c ∷ kind)
    → All (λ f. All IsPlain f) fields
    → decode_row float (tabbed ((c ∷ kind) ∷ fields)) ≡ decode_kind float (c ∷ kind) fields
unfolding decode_row
decode_row-tabbed float c kind [] h k = rw (split-tabbed (c ∷ kind) [] h k) refl
decode_row-tabbed float c kind (f ∷ fields) h k = rw (split-tabbed (c ∷ kind) (f ∷ fields) h k) refl

abbrev chat_fields : ChatMessage → List (List ℕ)
chat_fields m =
    to_string m.id
    ∷ to_string m.unix_ms
    ∷ encode_health_text m.user
    ∷ encode_health_text m.text
    ∷ []

chat_fields-IsPlain : (m : ChatMessage) → All (λ f. All IsPlain f) (chat_fields m)
chat_fields-IsPlain m = (
  digits-IsPlain m.id,
  (
    digits-IsPlain m.unix_ms,
    (encode_health_text-IsPlain m.user, (encode_health_text-IsPlain m.text, tt)),
  ),
)

decode_row-chat_line :
    (float : Float32) (m : ChatMessage)
    → IsMessage m
    → decode_row float (chat_line m) ≡ ok (chat_row m)
unfolding chat_line
decode_row-chat_line float m h =
    decode_row-tabbed float b'c' (b'h' ∷ b'a' ∷ b't' ∷ []) (chat_fields m) kind-IsPlain.0
      (chat_fields-IsPlain m)
    ∙ (unfold decode_kind in rw (decode_chat-fields m h) refl)

module _ (float : Float32) where
  -- What can be sent: numbers of 64 bits, and an identifier without tabs and ends of lines.
  abbrev pub IsEndpoint : EndpointHealth float → Type 0
  IsEndpoint e = All IsPlain e.endpoint_id × Fits e.last_seq × Fits e.max_seq

  -- What arrives: the rate as it is printed, and the last sequence for a missing largest one.
  abbrev pub received : EndpointHealth float → EndpointHealth float
  received e = record {
    endpoint_id = e.endpoint_id;
    achieved_mbps = float.rounded e.achieved_mbps;
    last_seq = e.last_seq;
    max_seq = or_last float e.last_seq e.max_seq;
  }

  decode_max-optional :
      (last max : Option ℕ)
      → Fits max
      → decode_max float last (some (optional max)) ≡ ok (or_last float last max)
  unfolding decode_max
  decode_max-optional last max h = rw (decode_seq-optional invalid_max_seq max h) refl

  decode_endpoint-fields :
      (e : EndpointHealth float)
      → IsEndpoint e
      → decode_endpoint float (
          e.endpoint_id
          ∷ float.format e.achieved_mbps
          ∷ optional e.last_seq
          ∷ optional e.max_seq
          ∷ [])
        ≡ ok (received e)
  unfolding decode_endpoint
  decode_endpoint-fields e h =
      rw
        (
          float.parse-format e.achieved_mbps,
          decode_seq-optional invalid_last_seq e.last_seq h.1,
          decode_max-optional e.last_seq e.max_seq h.2,
        )
        refl

  abbrev endpoint_fields : EndpointHealth float → List (List ℕ)
  endpoint_fields e =
      e.endpoint_id ∷ float.format e.achieved_mbps ∷ optional e.last_seq ∷ optional e.max_seq ∷ []

  endpoint_fields-IsPlain :
      (e : EndpointHealth float) → IsEndpoint e → All (λ f. All IsPlain f) (endpoint_fields e)
  endpoint_fields-IsPlain e h = (
    h.0,
    (
      float.format-IsPlain e.achieved_mbps,
      (optional-IsPlain e.last_seq, (optional-IsPlain e.max_seq, tt)),
    ),
  )

  decode_row-endpoint_line :
      (e : EndpointHealth float)
      → IsEndpoint e
      → decode_row float (endpoint_line float e) ≡ ok (endpoint_row (received e))
  unfolding endpoint_line
  decode_row-endpoint_line e h =
      decode_row-tabbed float b'e' (b'n' ∷ b'd' ∷ b'p' ∷ b'o' ∷ b'i' ∷ b'n' ∷ b't' ∷ [])
        (endpoint_fields e) kind-IsPlain.1 (endpoint_fields-IsPlain e h)
      ∙ (unfold decode_kind in rw (decode_endpoint-fields e h) refl)

  decode_rows-chat :
      (ms : List ChatMessage)
      → All IsMessage ms
      → decode_rows float (map chat_line ms) ≡ ok ([], ms)
  unfolding decode_rows
  decode_rows-chat [] h = refl
  decode_rows-chat (m ∷ ms) h = rw (decode_row-chat_line float m h.0, decode_rows-chat ms h.1) refl

  decode_rows-lines :
      (es : List (EndpointHealth float)) (ms : List ChatMessage)
      → All IsEndpoint es
      → All IsMessage ms
      → decode_rows float (map (endpoint_line float) es ++ map chat_line ms)
        ≡ ok (map received es, ms)
  unfolding decode_rows
  decode_rows-lines [] ms h k = decode_rows-chat ms k
  decode_rows-lines (e ∷ es) ms h k =
      rw (decode_row-endpoint_line e h.0, decode_rows-lines es ms h.1 k) refl

  lines_ok :
      (es : List (EndpointHealth float)) (ms : List ChatMessage)
      → All IsEndpoint es
      → All (λ line. All IsLineChar line) (map (endpoint_line float) es ++ map chat_line ms)
  unfolding endpoint_line chat_line
  lines_ok [] [] h = tt
  lines_ok [] (m ∷ ms) h = (
    tabbed_line chat_kind (chat_fields m) kind-IsPlain.0 (chat_fields-IsPlain m),
    lines_ok [] ms h,
  )
  lines_ok (e ∷ es) ms h = (
    tabbed_line endpoint_kind (endpoint_fields e) kind-IsPlain.1 (endpoint_fields-IsPlain e h.0),
    lines_ok es ms h.1,
  )

  -- A report whose numbers fit 64 bits, and whose identifiers hold no tabs and no ends of lines, is
  -- decoded to what was encoded, chat messages with any characters included; each rate as it is
  -- printed, and a missing largest sequence filled in with the last one.
  pub decode-encode_health_report :
      (r : HealthReport float)
      → r.seq < 2 ^ 64
      → r.unix_ms < 2 ^ 64
      → All IsEndpoint r.endpoints
      → All IsMessage r.chat
      → decode_health_report float (encode_health_report float r)
        ≡ ok (record {
          seq = r.seq;
          unix_ms = r.unix_ms;
          endpoints = map received r.endpoints;
          chat = r.chat;
        })
  unfolding encode_health_report decode_health_report header_line
  decode-encode_health_report r h k es ms =
      let numbers : List (List ℕ) = to_string r.seq ∷ to_string r.unix_ms ∷ [] in
      let plain : All (λ f. All IsPlain f) numbers =
        (digits-IsPlain r.seq, (digits-IsPlain r.unix_ms, tt)) in
      let rows : List (List ℕ) = map (endpoint_line float) r.endpoints ++ map chat_line r.chat in
      rw
        (
          lines-ended (tabbed (health_report_magic ∷ numbers) ∷ rows) (
            tabbed_line health_report_magic numbers kind-IsPlain.2 plain,
            lines_ok r.endpoints r.chat es,
          ),
          split-tabbed health_report_magic numbers kind-IsPlain.2 plain,
          number-to_string invalid_seq r.seq h,
          number-to_string invalid_unix_ms r.unix_ms k,
          decode_rows-lines r.endpoints r.chat es ms,
        )
        refl
