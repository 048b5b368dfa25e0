-- ===== src/Service/Asking/Prompt.antt =====
-- What a prompt holds, and its size (deepwiki/internal/service/ask_service.go).
use mathlib.Core.List.{append_assoc}
use godeepwiki.Common.{
  ℕ, ◌-◌, ◌≤◌, ◌≡◌, refl, String, List, [], ◌∷◌, ◌++◌, map, Bool-cases, inl, inr, ltb, leb, length,
  take, take-append-drop, length-drop, All, arith, min, length-take, leb→le, ltb→lt,
}
use godeepwiki.Model.Chunk.{Text}
use godeepwiki.Retriever.{ChunkHit}
use godeepwiki.Service.Asking.{
  ChatTurn, ChatMessage, truncate_runes, recent, message_of_turn, build_ask_prompt, text_of,
  system_rules, fragments,
}

length-truncate_runes : (s : Text) (n : ℕ) → length (truncate_runes s n) ≤ n
unfolding truncate_runes
length-truncate_runes s n = elim (Bool-cases (leb (length s) n)) [
  | inl short ↦ rw short (leb→le (length s) n short)
  | inr long ↦ rw long (omega (arith, length-take n s))
]

abbrev pub IsShort : ChatMessage → Type 0
IsShort m = length m.content ≤ 500

turns-IsShort : (ts : List ChatTurn) → All IsShort (map message_of_turn ts)
turns-IsShort [] = tt
turns-IsShort (t ∷ ts) = (length-truncate_runes t.content 500, turns-IsShort ts)

-- The turns are the latest six of the history, or all of it.
recent_lem :
    (history : List ChatTurn)
    → (earlier : List ChatTurn) × (earlier ++ recent history ≡ history)
      × (length (recent history) ≡ min 6 (length history))
recent_lem history =
    let over = length history - 6 in
    elim (Bool-cases (ltb 6 (length history))) [
      | inl many ↦ rw many (
        take over history,
        take-append-drop over history,
        omega (arith, length-drop over history, ltb→lt 6 (length history) many),
      )
      | inr few ↦ rw few ([], refl, ground arith)
    ]

-- Where a hit stands: path:start-end.
abbrev pub place_of : {S : Type 0} → (ℕ → Text) → ChunkHit S → Text
place_of decimal h =
    text_of h.chunk.path
    ++ (text_of ":" ++ (decimal h.chunk.start_line ++ (text_of "-" ++ decimal h.chunk.end_line)))

-- A text that quotes the hits in their order, each whole, under its place, and nothing else.
abbrev pub Quotes : {S : Type 0} → (ℕ → Text) → List (ChunkHit S) → Text → Type 0
Quotes decimal [] t = t ≡ []
Quotes decimal (h ∷ hs) t =
    (rest : Text) × (t
      ≡ text_of "\n--- "
        ++ (place_of decimal h
            ++ (text_of " ---\n" ++ (h.chunk.content ++ (text_of "\n" ++ rest)))))
    × Quotes decimal hs rest

fragments-Quotes :
    {S : Type 0} (decimal : ℕ → Text) (hits : List (ChunkHit S))
    → Quotes decimal hits (fragments decimal hits)
fragments-Quotes decimal [] = refl
fragments-Quotes decimal (h ∷ hs) =
    (fragments decimal hs, simp append_assoc, fragments-Quotes decimal hs)

-- A prompt is the rules, then turns of the history, then one message of the user: all the hits in
-- their order, each whole, under its path and lines, and then the question. The turns are the latest
-- six of the history, or all of it if it has no more, in their order, and each has at most 500
-- characters.
pub build_ask_prompt-IsBounded :
    {S : Type 0} (decimal : ℕ → Text) (question : String) (hits : List (ChunkHit S))
    (history : List ChatTurn)
    → (earlier : List ChatTurn) × (latest : List ChatTurn) × (quoted : Text) × (earlier ++ latest
        ≡ history)
      × (length latest ≡ min 6 (length history))
      × All IsShort (map message_of_turn latest)
      × Quotes decimal hits quoted
      × (build_ask_prompt decimal question hits history
          ≡ (record { role = "system"; content = text_of system_rules })
            ∷ (map message_of_turn latest
                ++ (record {
                  role = "user";
                  content = text_of "代码片段：" ++ (quoted ++ (text_of "\n\n问题：" ++ text_of question));
                })
                  ∷ []))
unfolding build_ask_prompt
build_ask_prompt-IsBounded decimal question hits history =
    let (earlier, is, size) = recent_lem history in
    (
      earlier,
      recent history,
      fragments decimal hits,
      is,
      size,
      turns-IsShort (recent history),
      fragments-Quotes decimal hits,
      refl,
    )
