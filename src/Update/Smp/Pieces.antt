-- ===== src/Update/Smp/Pieces.antt =====
-- The assembler does not depend on how the link cuts a reply into pieces.
use bin_range.Base.{
  append_nil, append_assoc, ℕ, ◌+◌, ◌-◌, ◌≡◌, inl, inr, Bool, true, false, refl, sym, ◌∙◌, ap,
  arith, Option, none, some, List, [], ◌∷◌, ◌++◌, ltb, ◌==◌, length, length-append, Bool-cases, ◌≢◌,
  drop,
}
use bin_range.Update.Smp.{SmpReply, wire_command}
use bin_range.Update.Smp.Reply.{decode_reply}
use bin_range.Update.Smp.Assembler.{
  SmpAssembler, SmpFeed, more, complete, error, judge, feed, fail, is_receiving, buffer_size,
  finish, header_ok, payload_length,
}

abbrev is_more : SmpFeed → Bool
is_more more = true
is_more complete = false
is_more error = false

error≢more : error ≢ more
error≢more e = ground (arith, ap is_more e)

complete≢more : complete ≢ more
complete≢more e = ground (arith, ap is_more e)

-- The assembler with more bytes in its buffer.
abbrev extend : SmpAssembler → List ℕ → SmpAssembler
extend a bytes = record a { buffer = a.buffer ++ bytes }

finish-never_more :
    (a : SmpAssembler) (r : Option SmpReply) → (finish a r).1 ≡ more → (finish a r).0 ≡ a
finish-never_more a none h = absurd (error≢more h)
finish-never_more a (some r) h = absurd (complete≢more h)

judge-more : (a : SmpAssembler) → (judge a).1 ≡ more → (judge a).0 ≡ a
unfolding judge
judge-more a h = elim (Bool-cases (ltb (length a.buffer) 8)) [
  | inl e ↦ ground arith
  | inr e ↦ elim (Bool-cases (header_ok (wire_command a.command) a.sequence a.buffer)) [
    | inr bad ↦ absurd (error≢more (ground (arith, h)))
    | inl good ↦ elim (Bool-cases (ltb (length a.buffer) (payload_length a.buffer + 8))) [
      | inl short ↦ ground arith
      | inr whole ↦
          let r = decode_reply a.command (drop 8 a.buffer) a.stored in
          ground (arith, finish-never_more a r)
    ]
  ]
]

-- `feed` of some bytes that fit, in a session.
feed_room :
    (a : SmpAssembler) (bytes : List ℕ)
    → is_receiving a.state ≡ true
    → ltb (buffer_size - length a.buffer) (length bytes) ≡ false
    → (length bytes == 0) ≡ false
    → feed a (some bytes) ≡ judge (extend a bytes)
unfolding feed
feed_room a bytes r f n = ground arith

feed_full :
    (a : SmpAssembler) (bytes : List ℕ)
    → ltb (buffer_size - length a.buffer) (length bytes) ≡ true
    → feed a (some bytes) ≡ fail a
unfolding feed
feed_full a bytes f = ground arith

feed_none :
    (a : SmpAssembler) (bytes : List ℕ)
    → is_receiving a.state ≡ true
    → (length bytes == 0) ≡ true
    → feed a (some bytes) ≡ (a, more)
unfolding feed
feed_none a bytes r z = ground arith

-- What is known when `feed` asks for more.
data More (a : SmpAssembler) (xs : List ℕ) : Type 0 where
  nothing : xs ≡ [] → feed a (some xs) ≡ (a, more) → is_receiving a.state ≡ true → More a xs
  waits :
      is_receiving a.state ≡ true
      → ltb (buffer_size - length a.buffer) (length xs) ≡ false
      → (feed a (some xs)).0 ≡ extend a xs
      → (length xs == 0) ≡ false
      → More a xs

length-zero : (xs : List ℕ) → (length xs == 0) ≡ true → xs ≡ []
length-zero [] h = refl
length-zero (x ∷ xs) h = absurd (ground arith)

feed-More : (a : SmpAssembler) (xs : List ℕ) → (feed a (some xs)).1 ≡ more → More a xs
unfolding feed
feed-More a xs h = elim (Bool-cases (is_receiving a.state)) [
  | inr e ↦ absurd (error≢more (ground (arith, h)))
  | inl r ↦ elim (Bool-cases (ltb (buffer_size - length a.buffer) (length xs))) [
    | inl full ↦ absurd (error≢more (ground (arith, h)))
    | inr fits ↦ elim (Bool-cases (length xs == 0)) [
      | inl z ↦ nothing (length-zero xs z) (ground arith) r
      | inr n ↦ waits r fits (ground (arith, judge-more (extend a xs))) n
    ]
  ]
]

paired :
    {b : SmpAssembler} {f : SmpFeed} (r : SmpAssembler × SmpFeed) → r.0 ≡ b → r.1 ≡ f → (b, f) ≡ r
paired {b} {f} r p q = ap (λ x. (x, f)) (sym p) ∙ ap (λ y. (r.0, y)) (sym q)

-- The second piece, when the first one was not enough.
feed-extend :
    (a : SmpAssembler) (xs ys : List ℕ)
    → is_receiving a.state ≡ true
    → ltb (buffer_size - length a.buffer) (length xs) ≡ false
    → (length xs == 0) ≡ false
    → (length ys == 0) ≡ false
    → feed (extend a xs) (some ys) ≡ feed a (some (xs ++ ys))
feed-extend a xs ys r f n m =
    let both = length-append a.buffer xs in
    let all = length-append xs ys in
    elim (Bool-cases (ltb (buffer_size - length (a.buffer ++ xs)) (length ys))) [
      | inl full ↦
          feed_full (extend a xs) ys full ∙ sym (feed_full a (xs ++ ys) (ground (arith, both, all)))
      | inr fits ↦
          feed_room (extend a xs) ys r fits m
          ∙ ap (λ b. judge (record a { buffer = b })) (append_assoc a.buffer xs ys)
          ∙ sym (feed_room a (xs ++ ys) r (ground (arith, both, all)) (ground (arith, all)))
    ]

feed-append :
    (a : SmpAssembler) (xs ys : List ℕ)
    → (feed a (some xs)).1 ≡ more
    → feed (feed a (some xs)).0 (some ys) ≡ feed a (some (xs ++ ys))
feed-append a xs ys h = elim (feed-More a xs h) [
  | nothing e f r ↦
      ap (λ (p : SmpAssembler × SmpFeed). feed p.0 (some ys)) f
      ∙ ap (λ zs. feed a (some (zs ++ ys))) (sym e)
  | waits r fits e n ↦ elim (Bool-cases (length ys == 0)) [
    | inl z ↦
        let none_left = length-zero ys z in
        ap (λ b. feed b (some ys)) e
        ∙ feed_none (extend a xs) ys r z
        ∙ paired (feed a (some xs)) e h
        ∙ ap (λ zs. feed a (some zs)) (sym (append_nil xs))
        ∙ ap (λ zs. feed a (some (xs ++ zs))) (sym none_left)
    | inr m ↦ ap (λ b. feed b (some ys)) e ∙ feed-extend a xs ys r fits n m
  ]
]

-- The pieces one after the other, and then the last.
abbrev pub feed_pieces : SmpAssembler → List (List ℕ) → List ℕ → SmpAssembler × SmpFeed
feed_pieces a [] last = feed a (some last)
feed_pieces a (piece ∷ pieces) last = feed_pieces (feed a (some piece)).0 pieces last

-- Each of the pieces leaves the assembler asking for more.
abbrev pub AllMore : SmpAssembler → List (List ℕ) → Type 0
AllMore a [] = Unit {0}
AllMore a (piece ∷ pieces) =
    ((feed a (some piece)).1 ≡ more) × AllMore (feed a (some piece)).0 pieces

abbrev pub joined : List (List ℕ) → List ℕ → List ℕ
joined [] last = last
joined (piece ∷ pieces) last = piece ++ joined pieces last

-- Bytes that come in pieces, each but the last leaving the assembler asking for more, have the same
-- effect and the same answer as if they had come at once: a reply, an error, or a wait for more.
pub pieces_at_once :
    (a : SmpAssembler) (pieces : List (List ℕ)) (last : List ℕ)
    → AllMore a pieces
    → feed_pieces a pieces last ≡ feed a (some (joined pieces last))
pieces_at_once a [] last m = refl
pieces_at_once a (piece ∷ pieces) last m =
    pieces_at_once (feed a (some piece)).0 pieces last m.1
    ∙ feed-append a piece (joined pieces last) m.0
