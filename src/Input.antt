-- ===== src/Input.antt =====
-- Input routing: include/framekit/input/routing.hpp, src/input_routing_runtime.cpp.
-- A coordinate (`double`) is a value of `F`, which is never computed with. What a handler does is
-- `invoke`, a parameter: it changes the world and says whether it consumes the event. It does not
-- change the router, over whose lists the callers iterate.
pub mod Routing
pub mod Subscribed
pub mod Aims
pub mod Offers
pub mod Targets
pub mod Pending
pub mod Batches
use framekit.Base.{
  ℕ, ◌+◌, Bool, true, false, not, ◌&&◌, ◌||◌, String, is_blank, List, [], ◌∷◌, ◌++◌, Option, none,
  some, length, is_empty, any, remove_if, u64, ◌==◌, nat_eq, string_eq, if◌then◌else◌,
}
use framekit.Base.Assoc.{lookup, insert, erase}

pub data InputDevice : Type 0 where
  unknown pointer keyboard text_device : InputDevice

pub data InputAction : Type 0 where
  unknown_action pointer_move pointer_button_down pointer_button_up : InputAction
  key_down key_up text_input : InputAction

pub record InputModifiers : Type 0 where
  pub shift : Bool
  pub control : Bool
  pub alt : Bool
  pub meta : Bool

pub record RawInputEvent (F : Type 0) : Type 0 where
  pub backend_type : String
  pub backend_payload : String
  pub device : InputDevice
  pub action : InputAction
  pub timestamp_ns : ℕ  -- uint64_t
  pub source_id : String
  pub window_id : String
  pub pointer_x : F
  pub pointer_y : F
  pub key_code : ℕ  -- uint32_t
  pub text : String
  pub modifiers : InputModifiers

pub record NormalizedInputEvent (F : Type 0) : Type 0 where
  pub device : InputDevice
  pub action : InputAction
  pub timestamp_ns : ℕ  -- uint64_t
  pub source_id : String
  pub window_id : String
  pub pointer_x : F
  pub pointer_y : F
  pub key_code : ℕ  -- uint32_t
  pub text : String
  pub modifiers : InputModifiers
  pub backend_extension : String

-- `Normalize` of an implementation: the event, or `none` for the result `false`.
abbrev pub Normalizer : Type 0 → Type 0
Normalizer F = RawInputEvent F → Option (NormalizedInputEvent F)

-- `PassthroughInputNormalizer`; its callers always give a place for the event.
unfoldable pub passthrough : {F : Type 0} → Normalizer F
passthrough raw = some (record {
  device = raw.device;
  action = raw.action;
  timestamp_ns = raw.timestamp_ns;
  source_id = raw.source_id;
  window_id = raw.window_id;
  pointer_x = raw.pointer_x;
  pointer_y = raw.pointer_y;
  key_code = raw.key_code;
  text = raw.text;
  modifiers = raw.modifiers;
  backend_extension = raw.backend_payload;
})

pub data MissingWindowTargetPolicy : Type 0 where
  drop_with_diagnostics fallback_to_global : MissingWindowTargetPolicy

abbrev pub is_drop : MissingWindowTargetPolicy → Bool
is_drop drop_with_diagnostics = true
is_drop fallback_to_global = false

pub record InputDispatchResult : Type 0 where
  pub delivered_handlers : ℕ
  pub dropped_events : ℕ
  pub consumed : Bool

pub record HandlerEntry (H : Type 0) : Type 0 where
  pub id : ℕ  -- uint64_t
  pub sequence : ℕ  -- uint64_t
  pub handler : H

pub record InputRouter (H : Type 0) : Type 0 where
  pub window_handlers : List (String × List (HandlerEntry H))
  pub global_handlers : List (HandlerEntry H)
  pub focused_window : String
  pub pointer_capture_window : String
  pub missing_target_policy : MissingWindowTargetPolicy
  pub next_handler_id : ℕ  -- uint64_t
  pub next_sequence : ℕ  -- uint64_t

abbrev pub is_pointer : InputDevice → Bool
is_pointer pointer = true
is_pointer _ = false

-- `device == kKeyboard || device == kText`.
abbrev pub is_keyboard_or_text : InputDevice → Bool
is_keyboard_or_text keyboard = true
is_keyboard_or_text text_device = true
is_keyboard_or_text _ = false

module _ {H : Type 0} where
  unfoldable pub new_router : InputRouter H
  new_router = record {
    window_handlers = [];
    global_handlers = [];
    focused_window = "";
    pointer_capture_window = "";
    missing_target_policy = drop_with_diagnostics;
    next_handler_id = 1;
    next_sequence = 1;
  }

  abbrev pub handlers_or_empty : Option (List (HandlerEntry H)) → List (HandlerEntry H)
  handlers_or_empty none = []
  handlers_or_empty (some handlers) = handlers

  abbrev pub has_id : ℕ → HandlerEntry H → Bool
  has_id id entry = entry.id == id

  abbrev next_entry : InputRouter H → H → HandlerEntry H
  next_entry r handler = record {
    id = r.next_handler_id;
    sequence = r.next_sequence;
    handler = handler;
  }

  -- An empty `std::function` is `none`; the result 0 is no handler's id.
  unfoldable pub subscribe_window : InputRouter H → String → Option H → InputRouter H × ℕ
  subscribe_window r window_id none = (r, 0)
  subscribe_window r window_id (some handler) = if is_blank window_id then (r, 0) else (
    record r {
      next_handler_id = u64 (r.next_handler_id + 1);
      next_sequence = u64 (r.next_sequence + 1);
      window_handlers =
          insert window_id
            (handlers_or_empty (lookup window_id r.window_handlers) ++ next_entry r handler ∷ [])
            r.window_handlers;
    },
    r.next_handler_id,
  )

  unfoldable pub subscribe_global : InputRouter H → Option H → InputRouter H × ℕ
  subscribe_global r none = (r, 0)
  subscribe_global r (some handler) = (
    record r {
      next_handler_id = u64 (r.next_handler_id + 1);
      next_sequence = u64 (r.next_sequence + 1);
      global_handlers = r.global_handlers ++ next_entry r handler ∷ [];
    },
    r.next_handler_id,
  )

  unfoldable pub remove_window_entry :
      InputRouter H → String → ℕ → List (HandlerEntry H) → InputRouter H × Bool
  remove_window_entry r window_id id handlers =
      let kept = remove_if (has_id id) handlers in
      if not (any (has_id id) handlers) then (r, false) else (
        record r {
          window_handlers =
              if is_empty kept
              then erase window_id r.window_handlers
              else insert window_id kept r.window_handlers;
        },
        true,
      )

  unfoldable pub unsubscribe_window : InputRouter H → String → ℕ → InputRouter H × Bool
  unsubscribe_window r window_id id = elim (lookup window_id r.window_handlers) [
    | none ↦ (r, false)
    | some handlers ↦ remove_window_entry r window_id id handlers
  ]

  unfoldable pub unsubscribe_global : InputRouter H → ℕ → InputRouter H × Bool
  unsubscribe_global r id =
      if not (any (has_id id) r.global_handlers)
      then (r, false)
      else (record r { global_handlers = remove_if (has_id id) r.global_handlers }, true)

  unfoldable pub set_focused_window : InputRouter H → String → InputRouter H
  set_focused_window r window_id = record r { focused_window = window_id }

  unfoldable pub set_pointer_capture_window : InputRouter H → String → InputRouter H
  set_pointer_capture_window r window_id = record r { pointer_capture_window = window_id }

  unfoldable pub clear_pointer_capture_window : InputRouter H → InputRouter H
  clear_pointer_capture_window r = record r { pointer_capture_window = "" }

  unfoldable pub set_missing_window_target_policy :
      InputRouter H → MissingWindowTargetPolicy → InputRouter H
  set_missing_window_target_policy r policy = record r { missing_target_policy = policy }

  unfoldable pub resolve_target_window :
      {F : Type 0} → InputRouter H → NormalizedInputEvent F → String
  resolve_target_window r event =
      if is_pointer event.device && not (is_blank r.pointer_capture_window)
      then r.pointer_capture_window
      else (if not (is_blank event.window_id)
          then event.window_id
          else (if is_keyboard_or_text event.device && not (is_blank r.focused_window)
              then r.focused_window
              else ""))
