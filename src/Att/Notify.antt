-- ===== src/Att/Notify.antt =====
-- Notifications and their listeners.
use btle_js.Prelude.{ℕ, ◌+◌, ◌≡◌, List, [], ◌∷◌, ◌++◌, none, some, done, pos, length, arith}
use btle_js.Host.{Host}
use btle_js.Parse.{load_byte}
use btle_js.Wire.Memory.{load_bytes}
use btle_js.Att.State.{Att, call_attribute, call_error, unexpected_notification, ErrorHandler}
use btle_js.Att.Respond.{call_back, handle_notification}
use btle_js.Att.Request.{listen_for_notifications, find}
use btle_js.Att.Read.{handle_read, handle_notify, byte_at, host_u16_at, report}

-- A notification, as libuv delivers it: `slack` is what the buffer holds behind it.
abbrev pub notification : ℕ → ℕ → List ℕ → List ℕ → List ℕ
notification x y value slack = 27 ∷ x ∷ y ∷ (value ++ slack)

-- For a handle that has no listener: after `listenForNotifications`, a notification for it,
-- whatever request is outstanding, calls the new listener with the payload and its length, status 0
-- and no error, and leaves the client as it was.
pub handle_read-listen :
    (h : Host) (a : Att) (k d x y : ℕ) (value slack : List ℕ)
    → find (h.load16 (x ∷ y ∷ [])) a.notification_map ≡ none
    → let b = listen_for_notifications a (h.load16 (x ∷ y ∷ [])) k d in
      handle_read h b (some (notification x y value slack)) (length value + 3) none
      ≡ done (b, call_attribute k 0 d (some (value ++ slack)) (pos (length value)) none ∷ [])
unfolding handle_read byte_at load_byte handle_notify host_u16_at load_bytes
    listen_for_notifications find call_back handle_notification
handle_read-listen h a k d x y value slack new = ground arith

-- A second `listenForNotifications` for a handle changes nothing: the first listener stays.
pub listen_twice :
    (a : Att) (handle k d k' d' : ℕ)
    → let b = listen_for_notifications a handle k d in listen_for_notifications b handle k' d' ≡ b
unfolding listen_for_notifications find
listen_twice a handle k d k' d' = ground arith

-- A notification for a handle that has no listener goes to the error handler, when there is one,
-- and leaves the client as it was.
pub handle_read-unknown :
    (h : Host) (a : Att) (e : ErrorHandler) (x y : ℕ) (value slack : List ℕ)
    → find (h.load16 (x ∷ y ∷ [])) a.notification_map ≡ none
    → let b = record a { error_handler = some e } in
      handle_read h b (some (notification x y value slack)) (length value + 3) none
      ≡ done (
        b,
        call_error e.callback e.data_ptr (unexpected_notification (h.load16 (x ∷ y ∷ []))) ∷ [],
      )
unfolding handle_read byte_at load_byte handle_notify host_u16_at load_bytes report
handle_read-unknown h a e x y value slack new = ground arith
