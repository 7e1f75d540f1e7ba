-- ===== src/Kernel/Machine/Handlers.antt =====
-- src/kernel-calculus/machine.ts: which handler an operation reaches, and that the token for it
-- puts the stack back.
use mathlib.Core.Path.{subst}
use semantic_systems.Base.{
  ℕ, ◌≡◌, refl, ◌∙◌, ap, true, false, Option, none, some, Bool-cases, inl, inr,
}
use semantic_systems.Kernel.Row.{Text, text_eq}
use semantic_systems.Kernel.Row.Equality.{text_eq→eq}
use semantic_systems.Kernel.Types.{ValueType}
use semantic_systems.Kernel.Diagnostic.{TermPath}
use semantic_systems.Kernel.Machine.{
  RuntimeValue, InternalResumption, Frame, Frames, Machine, Outcome, append_frames, push_captured,
  Split, handler_label, find_handler, is_live, runtime_value_has_type, use_token,
}

-- No frame is a handler for the label.
abbrev pub HasNoHandler : Text → Frames → Type 0
HasNoHandler label Frames.frames_end = Unit
HasNoHandler label (Frames.frame (Frame.handler_frame h) outer) =
    (text_eq (handler_label h) label ≡ false) × HasNoHandler label outer
HasNoHandler label (Frames.frame f outer) = HasNoHandler label outer

-- The handler is for the label, no frame above it is, and the parts are those of the stack.
abbrev pub IsNearest : Text → Frames → Split → Type 0
IsNearest label frames s =
    (handler_label s.handler ≡ label)
    × HasNoHandler label s.captured
    × (append_frames s.captured (Frames.frame (Frame.handler_frame s.handler) s.outer) ≡ frames)

-- What the search for a handler finds.
abbrev pub FindsNearest : Text → Frames → Option Split → Type 0
FindsNearest label frames none = HasNoHandler label frames
FindsNearest label frames (some s) = IsNearest label frames s

push-FindsNearest :
    (label : Text) (f : Frame) (outer : Frames) (o : Option Split)
    → ((fs : Frames) → HasNoHandler label fs → HasNoHandler label (Frames.frame f fs))
    → FindsNearest label outer o
    → FindsNearest label (Frames.frame f outer) (push_captured f o)
unfolding push_captured append_frames
push-FindsNearest label f outer none keeps h = keeps outer h
push-FindsNearest label f outer (some s) keeps (same, free, stack) =
    (same, keeps s.captured free, ap (Frames.frame f) stack)

-- The search gives the nearest handler for the label, with the frames above and below it, and gives
-- none only when no frame is a handler for the label.
pub find_handler_lem :
    (label : Text) (frames : Frames) → FindsNearest label frames (find_handler label frames)
unfolding find_handler append_frames
find_handler_lem label Frames.frames_end = tt
find_handler_lem label (Frames.frame (Frame.handler_frame h) outer) =
    elim (Bool-cases (text_eq (handler_label h) label)) [
      | inl same ↦ rw same (text_eq→eq (handler_label h) label same, tt, refl)
      | inr other ↦ rw other (
          push-FindsNearest label (Frame.handler_frame h) outer (find_handler label outer)
            (λ fs free. (other, free)) (find_handler_lem label outer))
    ]
find_handler_lem label (Frames.frame (Frame.let_frame m env p) outer) =
    push-FindsNearest label (Frame.let_frame m env p) outer (find_handler label outer)
      (λ fs free. free) (find_handler_lem label outer)
find_handler_lem label (Frames.frame (Frame.apply_frame a env p) outer) =
    push-FindsNearest label (Frame.apply_frame a env p) outer (find_handler label outer)
      (λ fs free. free) (find_handler_lem label outer)

abbrev pub frames_of : Outcome → Option Frames
frames_of (Outcome.next machine) = some machine.frames
frames_of _ = none

-- The stack of an operation that a handler takes is put back by the one use of its token, in a
-- machine that has come back to the frames below the handler: a live token and a value of the
-- operation's result type give the very stack on which the operation was performed.
pub use_token-find_handler :
    (label : Text) (frames : Frames) (s : Split) (id : ℕ) (type : ValueType) (v : RuntimeValue)
    (path : TermPath) (machine : Machine)
    → find_handler label frames ≡ some s
    → machine.frames ≡ s.outer
    → runtime_value_has_type v type ≡ true
    → is_live id machine.live ≡ true
    → frames_of
        (use_token
          (InternalResumption.resumption id type s.handler s.captured)
          v
          path
          machine).outcome
      ≡ some frames
unfolding use_token
use_token-find_handler label frames s id type v path machine found back fits live =
    let (_, _, stack) = subst (FindsNearest label frames) found (find_handler_lem label frames) in
    rw (fits, live)
      (ap
          (λ outer.
            some (append_frames s.captured (Frames.frame (Frame.handler_frame s.handler) outer)))
          back
        ∙ ap some stack)
