-- ===== src/Input/Aims.antt =====
-- The window at which an input event is aimed, and the handlers that it is offered to.
use framekit.Base.{
  ◌≡◌, ◌≢◌, refl, sym, subst, ◌∙◌, ◌⊎◌, inl, inr, Bool, true, false, not, ◌&&◌, is_blank, String,
  List, ◌++◌, Option, none, some, if◌then◌else◌, if_cases, true-ne-false, string_eq, Comparable,
  arith,
}
use framekit.Base.Assoc.{lookup}
use framekit.Input.{
  InputDevice, unknown, pointer, keyboard, text_device, NormalizedInputEvent, HandlerEntry,
  InputRouter, drop_with_diagnostics, fallback_to_global, is_pointer, is_keyboard_or_text,
  resolve_target_window,
}

blank : (s : String) → is_blank s ≡ true → s ≡ ""
blank s h = (Comparable.is_equal_iff string_eq s "").0 h

not-blank : (s : String) → is_blank s ≡ false → s ≢ ""
not-blank s h e = true-ne-false (sym ((Comparable.is_equal_iff string_eq s "").1 e) ∙ h)

module _ {H F : Type 0} (r : InputRouter H) (event : NormalizedInputEvent F) where
  -- No window has captured the event: it is not the pointer's, or there is no capture.
  abbrev IsFree : Type 0
  IsFree = (event.device ≢ pointer) ⊎ (r.pointer_capture_window ≡ "")

  abbrev IsTyped : Type 0
  IsTyped = (event.device ≡ keyboard) ⊎ (event.device ≡ text_device)

  -- A pointer event goes to the window with the capture, another one to the window that it names,
  -- and one of the keyboard or of text that names none to the focused window.
  pub data AimedAt : String → Type 0 where
    captured :
        event.device ≡ pointer → r.pointer_capture_window ≢ "" → AimedAt r.pointer_capture_window
    addressed : IsFree → event.window_id ≢ "" → AimedAt event.window_id
    focused :
        IsFree → event.window_id ≡ "" → IsTyped → r.focused_window ≢ "" → AimedAt r.focused_window
    nowhere : IsFree → event.window_id ≡ "" → ¬ IsTyped ⊎ (r.focused_window ≡ "") → AimedAt ""

  pub data OfferedTo : Option (List (HandlerEntry H)) → Type 0 where
    to_window :
        {window_id : String} {handlers : List (HandlerEntry H)}
        → AimedAt window_id
        → window_id ≢ ""
        → lookup window_id r.window_handlers ≡ some handlers
        → OfferedTo (some (handlers ++ r.global_handlers))
    to_nobody :
        {window_id : String}
        → AimedAt window_id
        → window_id ≢ ""
        → lookup window_id r.window_handlers ≡ none
        → r.missing_target_policy ≡ drop_with_diagnostics
        → OfferedTo none
    to_fallback :
        {window_id : String}
        → AimedAt window_id
        → window_id ≢ ""
        → lookup window_id r.window_handlers ≡ none
        → r.missing_target_policy ≡ fallback_to_global
        → OfferedTo (some r.global_handlers)
    to_global : AimedAt "" → OfferedTo (some r.global_handlers)

  is_pointer_lem : (d : InputDevice) → is_pointer d ≡ true → d ≡ pointer
  is_pointer_lem d h = ground (arith, h)

  typed : (d : InputDevice) → is_keyboard_or_text d ≡ true → (d ≡ keyboard) ⊎ (d ≡ text_device)
  typed keyboard h = inl refl
  typed text_device h = inr refl
  typed unknown h = absurd (true-ne-false (sym h))
  typed pointer h = absurd (true-ne-false (sym h))

  free_of :
      (d : InputDevice) (capture : String)
      → is_pointer d && not (is_blank capture) ≡ false
      → (d ≢ pointer) ⊎ (capture ≡ "")
  free_of pointer capture h = inr (blank capture (ground (arith, h)))
  free_of unknown capture h = inl λ e. cc
  free_of keyboard capture h = inl λ e. cc
  free_of text_device capture h = inl λ e. cc

  unfocused :
      (d : InputDevice) (window : String)
      → is_keyboard_or_text d && not (is_blank window) ≡ false
      → ¬ ((d ≡ keyboard) ⊎ (d ≡ text_device)) ⊎ (window ≡ "")
  unfocused keyboard window h = inr (blank window (ground (arith, h)))
  unfocused text_device window h = inr (blank window (ground (arith, h)))
  unfocused unknown window h = inl λ t. elim t [ inl e ↦ cc | inr e ↦ cc ]
  unfocused pointer window h = inl λ t. elim t [ inl e ↦ cc | inr e ↦ cc ]

  and-left : (a b : Bool) → a && b ≡ true → a ≡ true
  and-left a b h = ground (arith, h)

  and-not : (a b : Bool) → a && not b ≡ true → b ≡ false
  and-not a b h = ground (arith, h)

  free-AimedAt :
      IsFree
      → AimedAt (
          if not (is_blank event.window_id)
          then event.window_id
          else (if is_keyboard_or_text event.device && not (is_blank r.focused_window)
              then r.focused_window
              else ""))
  free-AimedAt free =
      if_cases AimedAt (not (is_blank event.window_id))
        (λ named. addressed free (not-blank event.window_id (ground (arith, named))))
        λ unnamed.
          let no_name = blank event.window_id (ground (arith, unnamed)) in
          if_cases AimedAt (is_keyboard_or_text event.device && not (is_blank r.focused_window))
            (λ t.
              focused free no_name (typed event.device (and-left _ _ t))
                (not-blank r.focused_window (and-not _ _ t)))
            (λ t. nowhere free no_name (unfocused event.device r.focused_window t))

  -- `ResolveTargetWindow` finds the window at which the event is aimed.
  pub resolved-AimedAt : AimedAt (resolve_target_window r event)
  unfolding resolve_target_window
  resolved-AimedAt =
      if_cases AimedAt (is_pointer event.device && not (is_blank r.pointer_capture_window))
        (λ t.
          captured (is_pointer_lem event.device (and-left _ _ t))
            (not-blank r.pointer_capture_window (and-not _ _ t)))
        (λ t. free-AimedAt (free_of event.device r.pointer_capture_window t))

  pub unnamed-OfferedTo :
      (target : String)
      → not (is_blank target) ≡ false
      → AimedAt target
      → OfferedTo (some r.global_handlers)
  unnamed-OfferedTo target t aim = to_global (subst AimedAt (blank target (ground (arith, t))) aim)

  pub is_named : (target : String) → not (is_blank target) ≡ true → target ≢ ""
  is_named target t = not-blank target (ground (arith, t))
