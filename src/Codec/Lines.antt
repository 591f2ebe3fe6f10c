-- ===== src/Codec/Lines.antt =====
-- The JSON lines of centrifuge/codecs.py: `encode_commands` and `decode_replies`.
use centrifuge_python.Base.{
  ℕ, ◌≡◌, refl, sym, ◌≢◌, false, Option, some, List, [], ◌∷◌, ◌++◌, map, arith, All,
}
use centrifuge_python.Codec.{
  is_space, lstrip, strip, split, join, json_encode_commands, load_all, json_decode_replies,
}
use mathlib.Core.List.{append_assoc, reverse, reverse-append, reverse-reverse}

-- A line that begins and ends with no white space, and holds no line feed.
pub record IsLine (line : List ℕ) : Type 0 where
  pub first : ℕ
  pub others : List ℕ
  pub begins : line ≡ first ∷ others
  pub first_black : is_space first ≡ false
  pub front : List ℕ
  pub last : ℕ
  pub ends : line ≡ front ++ (last ∷ [])
  pub last_black : is_space last ≡ false
  pub one_line : All (λ c. c ≢ 0x0A) line

lstrip_black : (c : ℕ) (cs : List ℕ) → is_space c ≡ false → lstrip (c ∷ cs) ≡ c ∷ cs
unfolding lstrip
lstrip_black c cs h = rw h

-- `strip` leaves a text alone that begins and ends with no white space.
strip_black :
    (s others front : List ℕ) (first last : ℕ)
    → s ≡ first ∷ others
    → is_space first ≡ false
    → s ≡ front ++ (last ∷ [])
    → is_space last ≡ false
    → strip s ≡ s
unfolding strip
strip_black s others front first last e h f g =
    let begin : lstrip s ≡ s = rw e (lstrip_black first others h) in
    let turned : reverse s ≡ last ∷ reverse front = rw f (reverse-append front (last ∷ [])) in
    rw (begin, turned, lstrip_black last (reverse front) g) (rw (← turned) (reverse-reverse s))

split-line :
    (line rest : List ℕ)
    → All (λ c. c ≢ 0x0A) line
    → split (line ++ (0x0A ∷ rest)) ≡ (line, (split rest).0 ∷ (split rest).1)
unfolding split
split-line [] rest h = refl
split-line (c ∷ line) rest h = ground (arith, split-line line rest h.1)

split_last : (line : List ℕ) → All (λ c. c ≢ 0x0A) line → split line ≡ (line, [])
unfolding split
split_last [] h = refl
split_last (c ∷ line) h = ground (arith, split_last line h.1)

split-join :
    (line : List ℕ) (lines : List (List ℕ))
    → All (λ l. All (λ c. c ≢ 0x0A) l) (line ∷ lines)
    → split (join (line ∷ lines)) ≡ (line, lines)
unfolding join
split-join line [] h = split_last line h.0
split-join line (next ∷ lines) h =
    rw (split-line line (join (next ∷ lines)) h.0, split-join next lines h.1)

join_begins :
    (line : List ℕ) (lines : List (List ℕ))
    → IsLine line
    → (first : ℕ) × (others : List ℕ) × (join (line ∷ lines) ≡ first ∷ others)
      × (is_space first ≡ false)
unfolding join
join_begins line [] h = (h.first, h.others, h.begins, h.first_black)
join_begins line (next ∷ lines) h =
    (h.first, h.others ++ (0x0A ∷ join (next ∷ lines)), rw h.begins, h.first_black)

join_ends :
    (line : List ℕ) (lines : List (List ℕ))
    → All IsLine (line ∷ lines)
    → (front : List ℕ) × (last : ℕ) × (join (line ∷ lines) ≡ front ++ (last ∷ []))
      × (is_space last ≡ false)
unfolding join
join_ends line [] h = (h.0.front, h.0.last, h.0.ends, h.0.last_black)
join_ends line (next ∷ lines) h =
    let (front, last, e, black) = join_ends next lines h.1 in
    (line ++ (0x0A ∷ front), last, rw e (sym (append_assoc line (0x0A ∷ front) (last ∷ []))), black)

no_feeds : (lines : List (List ℕ)) → All IsLine lines → All (λ l. All (λ c. c ≢ 0x0A) l) lines
no_feeds [] h = tt
no_feeds (line ∷ lines) h = (h.0.one_line, no_feeds lines h.1)

split-strip-join :
    (line : List ℕ) (lines : List (List ℕ))
    → All IsLine (line ∷ lines)
    → split (strip (join (line ∷ lines))) ≡ (line, lines)
split-strip-join line lines h =
    let (first, others, e, black) = join_begins line lines h.0 in
    let (front, last, f, black') = join_ends line lines h in
    rw (strip_black (join (line ∷ lines)) others front first last e black f black')
      (split-join line lines (no_feeds (line ∷ lines) h))

module _ {Message Reply : Type 0} (dumps : Message → List ℕ) (loads : List ℕ → Option Reply)
    (reply_of : Message → Reply) (loaded : (c : Message) → loads (dumps c) ≡ some (reply_of c))
    (dumped : (c : Message) → IsLine (dumps c)) where
  load_all-map :
      (commands : List Message) → load_all loads (map dumps commands) ≡ some (map reply_of commands)
  unfolding load_all
  load_all-map [] = refl
  load_all-map (c ∷ commands) = rw (loaded c, load_all-map commands)

  All-lines : (commands : List Message) → All IsLine (map dumps commands)
  All-lines [] = tt
  All-lines (c ∷ commands) = (dumped c, All-lines commands)

  -- The replies that `decode_replies` returns for one or more commands that `encode_commands` joined
  -- are those loaded from the dumped commands, in order, if `json.dumps` writes each of them as a line
  -- (no line feed inside, no white space at its ends) that `json.loads` reads.
  pub json_decode-encode :
      (c : Message) (commands : List Message)
      → json_decode_replies loads (json_encode_commands dumps (c ∷ commands))
        ≡ some (map reply_of (c ∷ commands))
  unfolding json_decode_replies json_encode_commands
  json_decode-encode c commands =
      rw (split-strip-join (dumps c) (map dumps commands) (All-lines (c ∷ commands)))
        (load_all-map (c ∷ commands))
