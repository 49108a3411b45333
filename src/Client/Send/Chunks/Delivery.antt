-- ===== src/Client/Send/Chunks/Delivery.antt =====
-- The chunks that `send_mpeg_ts_chunks` of crates/client/src/main.rs sends: all of the payload, in order,
-- each in a packet of its own on a connected path.
use irohsion.Prelude.{
  ℕ, zero, suc, ◌+◌, ◌-◌, ◌≤◌, ◌≡◌, ◌⊎◌, refl, sym, ap, ◌∙◌, arith, true, List, [], ◌∷◌, ◌++◌,
  Option, some, length, take, drop, get_elem?, All, All-append, length-append, ok, inl, inr,
}
use irohsion.Prelude.Map.{member}
use irohsion.Protocol.{PackedHeaderTail, max_media_sequence}
use irohsion.Protocol.Packet.{decode_packet, decode-encode_packet}
use irohsion.Server.Sequence.{next_sequence, next_sequence-le, sequence_after}
use irohsion.Client.Split.{Float}
use irohsion.Client.Split.Ranges.{Chain, Chain-le, within_slice}
use irohsion.Client.Split.Reassembly.{take-append-drop_between, drop_all}
use irohsion.Client.Send.{
  Action, ingested, cache, send, record_fec, send_error, single_fragment_packet, send_all,
  cache_whole,
}
use irohsion.Client.Send.Chunks.{Sent, send_chunk, send_chunks, only, send_ranges}

-- What the parity encoder gets, which is every chunk with its sequence.
abbrev pub fed : List Action → List (ℕ × List ℕ)
fed [] = []
fed (record_fec seq payload ∷ actions) = (seq, payload) ∷ fed actions
fed (ingested seq bytes ∷ actions) = fed actions
fed (cache seq fragments ∷ actions) = fed actions
fed (send path packet bytes ∷ actions) = fed actions
fed (send_error ∷ actions) = fed actions

-- Chunks with consecutive sequences.
abbrev pub numbered : ℕ → List (List ℕ) → List (ℕ × List ℕ)
numbered seq [] = []
numbered seq (chunk ∷ rest) = (seq, chunk) ∷ numbered (next_sequence seq) rest

abbrev pub Has : Action → List Action → Type 0
Has a [] = ⊥
Has a (b ∷ bs) = (a ≡ b) ⊎ Has a bs

abbrev pub concat : List (List ℕ) → List ℕ
concat [] = []
concat (xs ∷ rest) = xs ++ concat rest

fed-append : (xs ys : List Action) → fed (xs ++ ys) ≡ fed xs ++ fed ys
fed-append [] ys = refl
fed-append (record_fec seq payload ∷ xs) ys = ap (λ t. (seq, payload) ∷ t) (fed-append xs ys)
fed-append (ingested seq bytes ∷ xs) ys = fed-append xs ys
fed-append (cache seq fragments ∷ xs) ys = fed-append xs ys
fed-append (send path packet bytes ∷ xs) ys = fed-append xs ys
fed-append (send_error ∷ xs) ys = fed-append xs ys

Has-left : (a : Action) (xs ys : List Action) → Has a xs → Has a (xs ++ ys)
Has-left a [] ys h = absurd h
Has-left a (x ∷ xs) ys (inl e) = inl e
Has-left a (x ∷ xs) ys (inr h) = inr (Has-left a xs ys h)

Has-right : (a : Action) (xs ys : List Action) → Has a ys → Has a (xs ++ ys)
Has-right a [] ys h = h
Has-right a (x ∷ xs) ys h = inr (Has-right a xs ys h)

numbered-append :
    (seq : ℕ) (cs ds : List (List ℕ))
    → numbered seq (cs ++ ds) ≡ numbered seq cs ++ numbered (sequence_after seq (length cs)) ds
unfolding sequence_after
numbered-append seq [] ds = refl
numbered-append seq (c ∷ cs) ds = ap (λ t. (seq, c) ∷ t) (numbered-append (next_sequence seq) cs ds)

pub sequence_after-le :
    (seq n : ℕ) → seq ≤ max_media_sequence → sequence_after seq n ≤ max_media_sequence
unfolding sequence_after
sequence_after-le seq zero h = h
sequence_after-le seq (suc n) h = sequence_after-le (next_sequence seq) n (next_sequence-le seq h)

sequence_after-add :
    (seq a b : ℕ) → sequence_after (sequence_after seq a) b ≡ sequence_after seq (a + b)
unfolding sequence_after
sequence_after-add seq zero b =
    let same : b ≡ 0 + b = omega arith in ap (λ (n : ℕ). sequence_after seq n) same
sequence_after-add seq (suc a) b =
    let same : suc (a + b) ≡ suc a + b = omega arith in
    sequence_after-add (next_sequence seq) a b ∙ ap (λ (n : ℕ). sequence_after seq n) same

-- Reading at the index where a suffix starts.
at_suffix :
    {A : Type 0} (k : ℕ) (xs : List A) (x : A) (rest : List A)
    → drop k xs ≡ x ∷ rest
    → (get_elem? xs k ≡ some x) × (drop (k + 1) xs ≡ rest)
at_suffix zero xs x rest e = rw e (refl, refl)
at_suffix (suc k) [] x rest e = absurd (cc)
at_suffix (suc k) (y ∷ ys) x rest e =
    let shift : suc k + 1 ≡ suc (k + 1) = omega arith in
    let (read, after) = at_suffix k ys x rest e in
    (read, ap (λ (n : ℕ). drop n (y ∷ ys)) shift ∙ after)

module _ (tail : PackedHeaderTail) (float : Float) (active : List ℕ) where
  -- A chunk reaches a path: one of the connected paths is sent a packet that decodes to the chunk, as
  -- the only fragment of its sequence.
  abbrev pub Reaches : List Action → ℕ × List ℕ → Type 0
  Reaches actions (seq, chunk) =
      (path : ℕ) × (packet : List ℕ) × (member path active ≡ true)
      × Has (send path packet (length chunk)) actions
      × (decode_packet tail packet
          ≡ ok (record {
            header = record { sequence = seq; fragment = 0; fragments = 1 };
            payload = chunk;
          }))

  -- The chunks from `seq` on are sent: each of them reaches a path and is fed to the parity encoder,
  -- in order, and the next sequence is the one after them.
  pub record Delivers (seq : ℕ) (cs : List (List ℕ)) (sent : Sent) : Type 0 where
    pub in_order : fed sent.0 ≡ numbered seq cs
    pub next : sent.1 ≡ sequence_after seq (length cs)
    pub reached : All (Reaches sent.0) (numbered seq cs)

  Reaches-left :
      (xs ys : List Action) (es : List (ℕ × List ℕ))
      → All (Reaches xs) es
      → All (Reaches (xs ++ ys)) es
  Reaches-left xs ys [] h = tt
  Reaches-left xs ys ((s, c) ∷ es) h =
      let (path, packet, there, has, back) = h.0 in
      ((path, packet, there, Has-left _ xs ys has, back), Reaches-left xs ys es h.1)

  Reaches-right :
      (xs ys : List Action) (es : List (ℕ × List ℕ))
      → All (Reaches ys) es
      → All (Reaches (xs ++ ys)) es
  Reaches-right xs ys [] h = tt
  Reaches-right xs ys ((s, c) ∷ es) h =
      let (path, packet, there, has, back) = h.0 in
      ((path, packet, there, Has-right _ xs ys has, back), Reaches-right xs ys es h.1)

  Delivers-same :
      (seq : ℕ) (cs ds : List (List ℕ)) (sent : Sent)
      → cs ≡ ds
      → Delivers seq cs sent
      → Delivers seq ds sent
  Delivers-same seq cs ds sent e h = rw (sym e) h

  -- One after the other.
  Delivers-append :
      (seq : ℕ) (cs ds : List (List ℕ)) (first later : Sent)
      → Delivers seq cs first
      → Delivers first.1 ds later
      → Delivers seq (cs ++ ds) (first.0 ++ later.0, later.1)
  Delivers-append seq cs ds first later h k =
      let later_from : Delivers (sequence_after seq (length cs)) ds later = rw (sym h.next) k in
      record {
        in_order =
            fed-append first.0 later.0
            ∙ rw (h.in_order, later_from.in_order) (sym (numbered-append seq cs ds));
        next =
            later_from.next
            ∙ sequence_after-add seq (length cs) (length ds)
            ∙ rw (length-append cs ds) refl;
        reached = rw (numbered-append seq cs ds) (
            All-append _ (numbered seq cs) (numbered (sequence_after seq (length cs)) ds)
              (Reaches-left first.0 later.0 _ h.reached)
              (Reaches-right first.0 later.0 _ later_from.reached));
      }

  fed-send_all : (paths packet : List ℕ) (len : ℕ) → fed (send_all tail float paths packet len) ≡ []
  fed-send_all [] packet len = refl
  fed-send_all (path ∷ paths) packet len = fed-send_all paths packet len

  -- The paths of a chunk: one at least, and the first is connected.
  abbrev pub IsChoice : List ℕ → Type 0
  IsChoice [] = ⊥
  IsChoice (path ∷ paths) = member path active ≡ true

  -- The body of the loops.
  send_chunk-Delivers :
      (seq : ℕ) (chunk paths : List ℕ)
      → seq ≤ max_media_sequence
      → IsChoice paths
      → (actions : List Action) × (send_chunk tail float seq chunk paths ≡ some actions)
        × Delivers seq (chunk ∷ []) (actions, next_sequence seq)
  unfolding send_chunk single_fragment_packet sequence_after
  send_chunk-Delivers seq chunk [] h v = absurd v
  send_chunk-Delivers seq chunk (path ∷ paths) h v =
      let (packet, made, len, back) =
        decode-encode_packet tail (record { sequence = seq; fragment = 0; fragments = 1 }) chunk
          (record {
            sequence_fits = omega arith;
            fragment_in = omega arith;
            fragments_fit = omega arith;
          }) in
      (
        ingested seq (length chunk)
            ∷ cache_whole tail float seq packet (length chunk)
            ∷ (send_all tail float (path ∷ paths) packet (length chunk)
                ++ (record_fec seq chunk ∷ [])),
        rw made refl,
        record {
          in_order =
              fed-append (send_all tail float paths packet (length chunk))
                (record_fec seq chunk ∷ [])
              ∙ rw (fed-send_all paths packet (length chunk)) refl;
          next = refl;
          reached = ((path, packet, v, inr (inr (inl refl)), back), tt);
        },
      )

  -- The loop over chunks.
  pub send_chunks-Delivers :
      (paths_of : ℕ → Option (List ℕ)) (index seq : ℕ) (cs : List (List ℕ))
      → ((i : ℕ) → (paths : List ℕ) × (paths_of i ≡ some paths) × IsChoice paths)
      → seq ≤ max_media_sequence
      → (sent : Sent) × (send_chunks tail float paths_of index seq cs ≡ some sent)
        × Delivers seq cs sent
  unfolding send_chunks sequence_after
  send_chunks-Delivers paths_of index seq [] each h =
      (([], seq), refl, record { in_order = refl; next = refl; reached = tt })
  send_chunks-Delivers paths_of index seq (chunk ∷ rest) each h =
      let (paths, chosen, v) = each index in
      let (actions, done, first) = send_chunk-Delivers seq chunk paths h v in
      let (later, more, others) =
        send_chunks-Delivers paths_of (index + 1) (next_sequence seq) rest each
          (next_sequence-le seq h) in
      (
        (actions ++ later.0, later.1),
        rw (chosen, done, more) refl,
        Delivers-append seq (chunk ∷ []) rest (actions, next_sequence seq) later first others,
      )

  -- The loop over the split paths, from the path of an index on.
  pub send_ranges-Delivers :
      (k seq start : ℕ) (all : List (List ℕ)) (ranges suffix : List (ℕ × ℕ)) (paths : List ℕ)
      → drop k ranges ≡ suffix
      → Chain start (length all) suffix
      → length suffix ≡ length paths
      → All (λ path. member path active ≡ true) paths
      → seq ≤ max_media_sequence
      → (sent : Sent) × (send_ranges tail float k seq all ranges paths ≡ some sent)
        × Delivers seq (drop start all) sent
  unfolding send_ranges sequence_after
  send_ranges-Delivers k seq start all ranges [] [] e c l v h = (
    ([], seq),
    refl,
    rw (c, drop_all all) (record { in_order = refl; next = refl; reached = tt }),
  )
  send_ranges-Delivers k seq start all ranges [] (path ∷ paths) e c l v h = absurd (omega arith)
  send_ranges-Delivers k seq start all ranges (r ∷ suffix) [] e c l v h = absurd (omega arith)
  send_ranges-Delivers k seq start all ranges ((a, b) ∷ suffix) (path ∷ paths) e c l v h =
      let (range, after) = at_suffix k ranges (a, b) suffix e in
      let part = take (b - a) (drop a all) in
      let (sent, done, first) =
        send_chunks-Delivers (only tail float path) 0 seq part (λ i. (path ∷ [], refl, v.0)) h in
      let (later, more, others) =
        send_ranges-Delivers (k + 1) sent.1 b all ranges suffix paths after c.2 (omega arith) v.1
          (rw first.next (sequence_after-le seq (length part) h)) in
      (
        (sent.0 ++ later.0, later.1),
        rw (range, within_slice a b all c.1 (Chain-le b _ suffix c.2), done, more) refl,
        Delivers-same seq (part ++ drop b all) (drop start all) (sent.0 ++ later.0, later.1)
            (take-append-drop_between a b all c.1 ∙ ap (λ (n : ℕ). drop n all) (c.0))
            (Delivers-append seq part (drop b all) sent later first others),
      )
