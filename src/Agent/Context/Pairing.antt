-- ===== src/Agent/Context/Pairing.antt =====
-- The shape of an assembled prompt, and what its estimate counts.
use incident_diag.Base.{
  ℕ, ◌+◌, ◌*◌, ◌≤◌, ◌<◌, ◌≡◌, refl, Bool, true, false, ◌&&◌, List, [], ◌∷◌, ◌++◌, Option, none,
  some, bytes_eq, bytes_eq_refl, is_empty, Bytes, length, length-append, arith, sym,
}
use mathlib.Core.List.{append_assoc}
use incident_diag.Agent.Types.{Budget, Call, Incident, Message, Role, Turn, acted, unusable}
use incident_diag.Agent.Env.{Texts}
use incident_diag.Agent.Context.{
  Spent, render_turn, render_turns, build, prompt_bytes, estimate_tokens,
}

-- Reads a history, with the id of the call that waits for its reply: a call is answered by the very
-- next message, under its id, and no reply stands without its call.
abbrev pub is_paired : Option Bytes → List Message → Bool
is_paired none [] = true
is_paired (some id) [] = false
is_paired none (m ∷ ms) = elim m.role [
  | Role.assistant ↦ elim m.tool_calls [
    | [] ↦ is_paired none ms
    | c ∷ cs ↦ is_empty cs && is_paired (some c.id) ms
  ]
  | Role.tool ↦ false
  | Role.system ↦ is_paired none ms
  | Role.user ↦ is_paired none ms
]
is_paired (some id) (m ∷ ms) = elim m.role [
  | Role.tool ↦ bytes_eq m.tool_call_id id && is_paired none ms
  | Role.assistant ↦ false
  | Role.system ↦ false
  | Role.user ↦ false
]

abbrev pub turn_messages : List Turn → ℕ
turn_messages [] = 0
turn_messages (unusable n reason ∷ ts) = 1 + turn_messages ts
turn_messages (acted n call obs ∷ ts) = 2 + turn_messages ts

module _ (texts : Texts) where
  render_turn-is_paired :
      (t : Turn) (ms : List Message)
      → is_paired none ms ≡ true
      → is_paired none (render_turn texts t ++ ms) ≡ true
  unfolding render_turn
  render_turn-is_paired (unusable n reason) ms h = h
  render_turn-is_paired (acted n call obs) ms h = rw (bytes_eq_refl call.id) h

  render_turns-is_paired :
      (ts : List Turn) (ms : List Message)
      → is_paired none ms ≡ true
      → is_paired none (render_turns texts ts ++ ms) ≡ true
  unfolding render_turns
  render_turns-is_paired [] ms h = h
  render_turns-is_paired (t ∷ ts) ms h =
      rw (append_assoc {A = Message}) (render_turn-is_paired t _ (render_turns-is_paired ts ms h))

  length-render_turns : (ts : List Turn) → length (render_turns texts ts) ≡ turn_messages ts
  unfolding render_turns render_turn
  length-render_turns [] = refl
  length-render_turns (unusable n reason ∷ ts) = omega (arith, length-render_turns ts)
  length-render_turns (acted n call obs ∷ ts) = omega (arith, length-render_turns ts)

  -- In every prompt each call is followed by its own reply and each reply preceded by its call, and
  -- nothing is pruned: each step that acted gives two messages and each other step one, beside the
  -- system prompt, the incident and the budget line.
  pub build-is_paired :
      (incident : Incident) (budget : Budget) (ts : List Turn) (spent : Spent)
      → (is_paired none (build texts incident budget ts spent) ≡ true)
        × (length (build texts incident budget ts spent) ≡ turn_messages ts + 3)
  unfolding build
  build-is_paired incident budget ts spent = (
    render_turns-is_paired ts _ refl,
    omega (arith, length-append (render_turns texts ts) (_ ∷ []), length-render_turns ts),
  )

  prompt_bytes-append :
      (ms ns : List Message) → prompt_bytes (ms ++ ns) ≡ prompt_bytes ms + prompt_bytes ns
  unfolding prompt_bytes
  prompt_bytes-append [] ns = omega arith
  prompt_bytes-append (m ∷ ms) ns = omega (arith, prompt_bytes-append ms ns)

  arguments-le-turn :
      (n : ℕ) (call : Call) (obs : Bytes)
      → length call.arguments ≤ prompt_bytes (render_turn texts (acted n call obs))
  unfolding render_turn prompt_bytes
  arguments-le-turn n call obs = omega arith

  render_turns-append :
      (ts us : List Turn)
      → render_turns texts (ts ++ us) ≡ render_turns texts ts ++ render_turns texts us
  unfolding render_turns
  render_turns-append [] us = refl
  render_turns-append (t ∷ ts) us =
      rw (render_turns-append ts us)
        (sym (append_assoc (render_turn texts t) (render_turns texts ts) (render_turns texts us)))

  prompt-turn :
      (n : ℕ) (call : Call) (obs : Bytes) (ts us : List Turn)
      → length call.arguments ≤ prompt_bytes (render_turns texts (ts ++ acted n call obs ∷ us))
  unfolding render_turns
  prompt-turn n call obs ts us = rw (render_turns-append ts (acted n call obs ∷ us)) (
      omega (
        arith,
        prompt_bytes-append (render_turns texts ts) (render_turns texts (acted n call obs ∷ us)),
        prompt_bytes-append (render_turn texts (acted n call obs)) (render_turns texts us),
        arguments-le-turn n call obs,
      ))

  -- The arguments of a call are part of every later prompt and are not capped: once any step so far,
  -- the latest or an earlier one, called a tool with arguments of at least four bytes for each token of
  -- a limit and a token more, the estimate of the prompt exceeds the limit, whatever the limit, the
  -- number of steps and the other turns.
  pub estimate_tokens-arguments :
      (incident : Incident) (budget : Budget) (ts us : List Turn) (spent : Spent) (n : ℕ)
      (call : Call) (obs : Bytes) (limit : ℕ)
      → 4 * (limit + 1) ≤ length call.arguments
      → limit < estimate_tokens (build texts incident budget (ts ++ acted n call obs ∷ us) spent)
  unfolding estimate_tokens build prompt_bytes
  estimate_tokens-arguments incident budget ts us spent n call obs limit big = omega (
    arith,
    prompt_bytes-append (render_turns texts (ts ++ acted n call obs ∷ us)) (_ ∷ []),
    prompt-turn n call obs ts us,
  )
