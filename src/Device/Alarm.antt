-- ===== src/Device/Alarm.antt =====
-- nemu/src/device/alarm.c: the handlers that the host's timer signal calls. A handler is a function of the
-- state that it changes.
use my_oscpu.Base.{ℕ, ltb, List, [], ◌∷◌, ◌++◌, length, Result, ok, panic, ◌>>◌, guard}

abbrev pub max_handler : ℕ
max_handler = 8

module _ {S : Type 0} where
  unfoldable pub add_alarm_handle : (S → S) → List (S → S) → Result (List (S → S))
  add_alarm_handle h handlers =
      guard (ltb (length handlers) max_handler) (panic "assert(idx < MAX_HANDLER)")
      >> ok (handlers ++ h ∷ [])

  unfoldable pub alarm_sig_handler : List (S → S) → S → S
  alarm_sig_handler [] s = s
  alarm_sig_handler (h ∷ hs) s = alarm_sig_handler hs (h s)
