-- ===== src/Service/Asking/Transcript.antt =====
-- The events of AskStream, and Ask beside it (deepwiki/internal/service/ask_service.go).
use mathlib.Core.List.{append_assoc, append-nil}
use godeepwiki.Common.{
  ℕ, ◌≡◌, refl, ap, subst, sym, ◌∙◌, Bool, true, false, List, [], ◌∷◌, ◌++◌, Option, none, some,
  or_else, Bool-cases, inl, inr, ◌⊎◌, is_some, arith, String, length, Result, ok, err,
}
use godeepwiki.Model.Chunk.{Text}
use godeepwiki.Model.Errors.{Error, wrapped}
use godeepwiki.Retriever.{ChunkHit}
use godeepwiki.Service.Asking.{
  Usage, StreamChunk, Temperatures, AskRequest, AskParams, StreamEvent, references, thinking, token,
  finished, AskResponse, Reference, build_references, usage_from_stream, map_llm_error,
}
use godeepwiki.Service.Asking.Answering.{
  AskEnv, prepare, prompt_of, answered, asked, ask, Streamed, sent, delta_taken, chunk_taken,
  take_chunks, opened, streamed, ask_stream,
}

-- What a chunk is for the client: a part of the reasoning or of the answer, if it has a text.
abbrev pub event_of : {S : Type 0} → Text → Bool → List (StreamEvent S)
event_of [] reasoning = []
event_of (d ∷ ds) true = thinking (d ∷ ds) ∷ []
event_of (d ∷ ds) false = token (d ∷ ds) ∷ []

abbrev pub said_of : Text → Bool → Text
said_of [] reasoning = []
said_of (d ∷ ds) true = []
said_of (d ∷ ds) false = d ∷ ds

-- A usage beside a part of the reasoning does not count.
abbrev pub counted_of : Text → Bool → Option Usage → Option Usage
counted_of [] reasoning u = u
counted_of (d ∷ ds) true u = none
counted_of (d ∷ ds) false u = u

-- Of all the chunks of a stream: the parts in their order, the answer, the last usage that counts,
-- and whether one has an error.
abbrev pub parts : {S : Type 0} → List StreamChunk → List (StreamEvent S)
parts [] = []
parts (c ∷ cs) = event_of c.delta c.reasoning ++ parts cs

abbrev pub said : List StreamChunk → Text
said [] = []
said (c ∷ cs) = said_of c.delta c.reasoning ++ said cs

abbrev pub last_usage : List StreamChunk → Option Usage
last_usage [] = none
last_usage (c ∷ cs) = or_else (last_usage cs) (counted_of c.delta c.reasoning c.usage)

abbrev pub HasError : List StreamChunk → Type 0
HasError [] = ⊥
HasError (c ∷ cs) = (is_some c.error ≡ true) ⊎ HasError cs

-- What follows after `before`, for a stream with the given parts, answer and usage: without an error
-- all the parts and then one end; with one, the parts up to where the sink refused an event or the
-- stream broke.
abbrev pub IsTalk :
    {S : Type 0}
    → (ℕ → Bool)
    → Type 0
    → List (StreamEvent S)
    → Text
    → Option Usage
    → List (StreamEvent S)
    → Result Error (Unit {0}) × List (StreamEvent S)
    → Type 0
IsTalk sink broken planned answer usage before (err e, events) =
    (mid later : List (StreamEvent _)) × (mid ++ later ≡ planned)
    × (events ≡ before ++ mid)
    × ((sink (length events) ≡ false) ⊎ broken)
IsTalk sink broken planned answer usage before (ok _, events) =
    (¬ broken) × (events ≡ before ++ (planned ++ finished (usage_from_stream usage answer) ∷ []))

IsTalk-part :
    {S : Type 0} (sink : ℕ → Bool) (broken : Type 0) (e : StreamEvent S)
    (planned : List (StreamEvent S)) (answer : Text) (usage : Option Usage)
    (before : List (StreamEvent S)) (reply : Result Error (Unit {0}) × List (StreamEvent S))
    → IsTalk sink broken planned answer usage (before ++ e ∷ []) reply
    → IsTalk sink broken (e ∷ planned) answer usage before reply
IsTalk-part sink broken e planned answer usage before (err _, events) (mid, later, is, at, why) =
    (e ∷ mid, later, ap (λ l. e ∷ l) is, at ∙ append_assoc before (e ∷ []) mid, why)
IsTalk-part sink broken e planned answer usage before (ok _, events) (fine, at) = (
  fine,
  at ∙ append_assoc before (e ∷ []) (planned ++ finished (usage_from_stream usage answer) ∷ []),
)

-- A chunk that has no error is no reason for one.
IsTalk-sound :
    {S : Type 0} (sink : ℕ → Bool) (before broken : Type 0) (planned : List (StreamEvent S))
    (answer : Text) (usage : Option Usage) (events : List (StreamEvent S))
    (reply : Result Error (Unit {0}) × List (StreamEvent S))
    → (before → broken)
    → (broken → before)
    → IsTalk sink before planned answer usage events reply
    → IsTalk sink broken planned answer usage events reply
IsTalk-sound sink _ _ planned answer usage events (err e, _) to back (mid, later, is, at, inl no') =
    (mid, later, is, at, inl no')
IsTalk-sound sink _ _ planned answer usage events (err e, _) to back (mid, later, is, at, inr b) =
    (mid, later, is, at, inr (to b))
IsTalk-sound sink _ _ planned answer usage events (ok u, _) to back (fine, at) =
    (λ b. fine (back b), at)

or_else_assoc : (a b c : Option Usage) → or_else a (or_else b c) ≡ or_else (or_else a b) c
or_else_assoc none b c = refl
or_else_assoc (some u) b c = refl

module _ {F S : Type 0} (temperatures : Temperatures F) (decimal : ℕ → Text)
    (env : AskEnv F S) where
  -- The talk of the chunks `cs`, after an answer and a usage so far.
  abbrev pub Talks :
      List StreamChunk
      → Text
      → Option Usage
      → List (StreamEvent S)
      → Result Error (Unit {0}) × List (StreamEvent S)
      → Type 0
  Talks cs answer usage before reply =
      IsTalk env.sink_ok (HasError cs) (parts cs) (answer ++ said cs)
        (or_else (last_usage cs) usage) before reply

  -- A call of the sink: its error ends the talk.
  sent-IsTalk :
      (broken : Type 0) (e : StreamEvent S)
      (rest : List (StreamEvent S) → Streamed temperatures decimal env)
      (planned : List (StreamEvent S)) (answer : Text) (usage : Option Usage)
      (events : List (StreamEvent S))
      → IsTalk env.sink_ok broken planned answer usage (events ++ e ∷ []) (rest (events ++ e ∷ []))
      → IsTalk env.sink_ok broken
          (e ∷ planned)
          answer
          usage
          events
          (sent temperatures decimal env e rest events)
  unfolding sent
  sent-IsTalk broken e rest planned answer usage events talk =
      elim (Bool-cases (env.sink_ok (length events))) [
        | inl takes ↦ rw takes (
            IsTalk-part env.sink_ok broken e planned answer usage events (rest (events ++ e ∷ []))
              talk)
        | inr refuses ↦ rw refuses ([], e ∷ planned, refl, sym (append-nil events), inl refuses)
      ]

  delta_taken-Talks :
      (cs : List StreamChunk) (delta : Text) (reasoning : Bool) (next : Option Usage)
      (rest : Text → Option Usage → List (StreamEvent S) → Streamed temperatures decimal env)
      (answer : Text) (usage : Option Usage) (events : List (StreamEvent S))
      → ((a : Text) (u : Option Usage) (es : List (StreamEvent S)) → Talks cs a u es (rest a u es))
      → IsTalk env.sink_ok
          (HasError cs)
          (event_of delta reasoning ++ parts cs)
          (answer ++ (said_of delta reasoning ++ said cs))
          (or_else (or_else (last_usage cs) (counted_of delta reasoning next)) usage)
          events
          (delta_taken temperatures decimal env delta reasoning next rest answer usage events)
  unfolding delta_taken
  delta_taken-Talks cs [] reasoning next rest answer usage events talk =
      rw (← or_else_assoc (last_usage cs) next usage) (talk answer (or_else next usage) events)
  delta_taken-Talks cs (d ∷ ds) true next rest answer usage events talk =
      rw (← or_else_assoc (last_usage cs) none usage) (
        sent-IsTalk (HasError cs) (thinking (d ∷ ds)) (rest answer usage) (parts cs)
          (answer ++ said cs) (or_else (last_usage cs) usage) events
          (talk answer usage (events ++ thinking (d ∷ ds) ∷ [])))
  delta_taken-Talks cs (d ∷ ds) false next rest answer usage events talk =
      rw (← or_else_assoc (last_usage cs) next usage) (
        rw (← append_assoc answer (d ∷ ds) (said cs)) (
          sent-IsTalk (HasError cs) (token (d ∷ ds)) (rest (answer ++ d ∷ ds) (or_else next usage))
            (parts cs) ((answer ++ d ∷ ds) ++ said cs)
            (or_else (last_usage cs) (or_else next usage)) events
            (talk (answer ++ d ∷ ds) (or_else next usage) (events ++ token (d ∷ ds) ∷ []))))

  chunk_taken-Talks :
      (c : StreamChunk) (cs : List StreamChunk) (error : Option Error)
      (rest : Text → Option Usage → List (StreamEvent S) → Streamed temperatures decimal env)
      (answer : Text) (usage : Option Usage) (events : List (StreamEvent S))
      → c.error ≡ error
      → ((a : Text) (u : Option Usage) (es : List (StreamEvent S)) → Talks cs a u es (rest a u es))
      → Talks
          (c ∷ cs)
          answer
          usage
          events
          (chunk_taken temperatures decimal env c error rest answer usage events)
  unfolding chunk_taken
  chunk_taken-Talks c cs (some e) rest answer usage events is talk =
      ([], parts (c ∷ cs), refl, sym (append-nil events), inr (inl (rw is refl)))
  chunk_taken-Talks c cs none rest answer usage events is talk =
      IsTalk-sound env.sink_ok (HasError cs) (HasError (c ∷ cs)) (parts (c ∷ cs))
        (answer ++ said (c ∷ cs)) (or_else (last_usage (c ∷ cs)) usage) events _ (λ b. inr b)
        (λ b. elim b [ inl bad ↦ absurd (ground (arith, is, bad)) | inr later ↦ later ])
        (delta_taken-Talks cs c.delta c.reasoning c.usage rest answer usage events talk)

  take_chunks-Talks :
      (cs : List StreamChunk) (answer : Text) (usage : Option Usage) (events : List (StreamEvent S))
      → Talks cs answer usage events (take_chunks temperatures decimal env cs answer usage events)
  unfolding take_chunks sent
  take_chunks-Talks [] answer usage events = elim (Bool-cases (env.sink_ok (length events))) [
    | inl takes ↦ rw takes (
      λ b. b,
      ap (λ a. events ++ finished (usage_from_stream usage a) ∷ []) (sym (append-nil answer)),
    )
    | inr refuses ↦ rw refuses ([], [], refl, sym (append-nil events), inl refuses)
  ]
  take_chunks-Talks (c ∷ cs) answer usage events =
      chunk_taken-Talks c cs c.error (take_chunks temperatures decimal env cs) answer usage events
        refl (take_chunks-Talks cs)

  -- The talk about some hits: the references, and then what the model streams, if it does.
  abbrev pub Answers :
      AskParams F
      → List (ChunkHit S)
      → Result Error (List StreamChunk)
      → Result Error (Unit {0}) × List (StreamEvent S)
      → Type 0
  Answers p hits (err e) reply =
      reply ≡ (err (map_llm_error e), references p.mode (build_references hits) ∷ [])
  Answers p hits (ok chunks) reply =
      Talks chunks [] none (references p.mode (build_references hits) ∷ []) reply

  -- A stream in full: nothing and an error that has a cause, or the talk about the hits.
  abbrev pub IsTranscript : AskRequest F → Result Error (Unit {0}) × List (StreamEvent S) → Type 0
  IsTranscript req reply =
      ((e : Error) × (reply ≡ (err e, []))
        × ((prepare temperatures decimal env req ≡ err e) ⊎ (env.sink_ok 0 ≡ false)))
      ⊎ ((p : AskParams F) × (hits : List (ChunkHit S)) × (prepare temperatures decimal env req
            ≡ ok (p, hits))
          × Answers p hits
              (env.generate_stream (prompt_of temperatures decimal env req hits) p.temperature)
              reply)

  opened-Answers :
      (p : AskParams F) (hits : List (ChunkHit S)) (chunks : Result Error (List StreamChunk))
      → Answers p hits chunks
          (opened temperatures decimal env chunks (references p.mode (build_references hits) ∷ []))
  opened-Answers p hits (err e) = refl
  opened-Answers p hits (ok chunks) =
      take_chunks-Talks chunks [] none (references p.mode (build_references hits) ∷ [])

  streamed-IsTranscript :
      (req : AskRequest F) (ready : Result Error (AskParams F × List (ChunkHit S)))
      → prepare temperatures decimal env req ≡ ready
      → IsTranscript req (streamed temperatures decimal env req ready)
  unfolding sent
  streamed-IsTranscript req (err e) got = inl (e, refl, inl got)
  streamed-IsTranscript req (ok (p, hits)) got = elim (Bool-cases (env.sink_ok 0)) [
    | inr refuses ↦ rw refuses (inl (wrapped "sink", refl, inr refl))
    | inl takes ↦ rw takes (
        inr (
          p,
          hits,
          got,
          opened-Answers p hits
              (env.generate_stream (prompt_of temperatures decimal env req hits) p.temperature),
        ))
  ]

  -- An AskStream returns an error and has sent nothing, since its preparation gives that error or
  -- the sink refuses the first event; or it has sent the references of the hits first. Then, if the
  -- model does not open a stream, there is nothing more, and the error is the model's as the client
  -- may see it. If it opens one, whatever its chunks are: with no error, no chunk had one, and
  -- exactly the texts of all the chunks were sent, in their order and each as a part of the answer
  -- or of the reasoning, and then, once, the end, with the last usage that the model reported
  -- outside of its reasoning, or an estimate from the answer if there is none or it is empty; with
  -- an error, exactly a first part of these texts and no end, and the sink refused the next event
  -- or a chunk had an error.
  pub ask_stream-IsTranscript :
      (req : AskRequest F) → IsTranscript req (ask_stream temperatures decimal env req)
  unfolding ask_stream
  ask_stream-IsTranscript req =
      streamed-IsTranscript req (prepare temperatures decimal env req) refl

  -- Nothing, or first the references of the answer.
  abbrev pub BeginsWith : AskResponse S → List (StreamEvent S) → Type 0
  BeginsWith r events =
      (events ≡ [])
      ⊎ ((rest : List (StreamEvent S)) × (events ≡ references r.mode r.references ∷ rest))

  answered-references :
      (p : AskParams F) (hits : List (ChunkHit S)) (reply : Result Error (Text × Option Usage))
      (r : AskResponse S)
      → answered temperatures decimal env p hits reply ≡ ok r
      → references p.mode (build_references hits) ≡ references r.mode r.references
  answered-references p hits (err e) r got = absurd (cc)
  answered-references p hits (ok (content, usage)) r got =
      let answer : AskResponse S = record {
        answer = content;
        references = build_references hits;
        mode = p.mode;
        usage = usage_from_stream usage content;
      } in
      let same : answer ≡ r = cc in ap (λ a. references a.mode a.references) same

  ask-references :
      (req : AskRequest F) (r : AskResponse S) (p : AskParams F) (hits : List (ChunkHit S))
      → prepare temperatures decimal env req ≡ ok (p, hits)
      → ask temperatures decimal env req ≡ ok r
      → references p.mode (build_references hits) ≡ references r.mode r.references
  unfolding ask
  ask-references req r p hits ready got =
      answered-references p hits
        (env.generate (prompt_of temperatures decimal env req hits) p.temperature) r
        (subst (λ x. asked temperatures decimal env req x ≡ ok r) ready got)

  talk-BeginsWith :
      (mode : String) (refs : List (Reference S)) (chunks : List StreamChunk)
      (reply : Result Error (Unit {0}) × List (StreamEvent S))
      → Talks chunks [] none (references mode refs ∷ []) reply
      → (rest : List (StreamEvent S)) × (reply.1 ≡ references mode refs ∷ rest)
  talk-BeginsWith mode refs chunks (err e, events) (mid, later, is, at, why) = (mid, at)
  talk-BeginsWith mode refs chunks (ok _, events) (fine, at) = (_, at)

  Answers-BeginsWith :
      (p : AskParams F) (hits : List (ChunkHit S)) (chunks : Result Error (List StreamChunk))
      (reply : Result Error (Unit {0}) × List (StreamEvent S))
      → Answers p hits chunks reply
      → (rest : List (StreamEvent S)) × (reply.1 ≡ references p.mode (build_references hits) ∷ rest)
  Answers-BeginsWith p hits (err e) reply is = ([], ap (λ r. r.1) is)
  Answers-BeginsWith p hits (ok chunks) reply talk =
      talk-BeginsWith p.mode (build_references hits) chunks reply talk

  transcript-BeginsWith :
      (req : AskRequest F) (r : AskResponse S)
      (reply : Result Error (Unit {0}) × List (StreamEvent S))
      → ask temperatures decimal env req ≡ ok r
      → IsTranscript req reply
      → BeginsWith r reply.1
  transcript-BeginsWith req r reply got (inl (e, none_sent, why)) = inl (ap (λ x. x.1) none_sent)
  transcript-BeginsWith req r reply got (inr (p, hits, ready, talk)) =
      let (rest, is) = Answers-BeginsWith p hits _ reply talk in
      inr (rest, is ∙ ap (λ x. x ∷ rest) (ask-references req r p hits ready got))

  -- When Ask answers a request, AskStream under the same circumstances sends nothing (the first call
  -- of the sink fails) or begins with the mode and the references that Ask returns.
  pub ask_stream-BeginsWith :
      (req : AskRequest F) (r : AskResponse S)
      → ask temperatures decimal env req ≡ ok r
      → BeginsWith r (ask_stream temperatures decimal env req).1
  ask_stream-BeginsWith req r got =
      transcript-BeginsWith req r (ask_stream temperatures decimal env req) got
        (ask_stream-IsTranscript req)
