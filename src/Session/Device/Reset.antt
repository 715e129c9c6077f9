-- ===== src/Session/Device/Reset.antt =====
-- `reset_device_state` of include/ReliableSession.hpp: a device that forgets its client.
use florid_usb_protocols.Prelude.{ℕ, ◌^◌, ◌<◌, ◌≡◌, ◌≢◌, refl, sym, ◌∙◌, false, [], ==_ne}
use florid_usb_protocols.Prelude.Eq.{nat_regular}
use florid_usb_protocols.Platform.{Platform}
use florid_usb_protocols.IdRing.{compose_dedup_key, contains, seen_id_ring_bits}
use florid_usb_protocols.IdRing.Key.{compose_dedup_key_ne_zero}
use florid_usb_protocols.IdRing.Retention.{insert_all, insert_all_no_false_positive}
use florid_usb_protocols.Session.{Session}
use florid_usb_protocols.Session.Device.{on_request, reset_device_state}
use florid_usb_protocols.Session.Device.Replay.{is_duplicate-on_request}

module _ (P : Platform) where
  -- After `reset_device_state` a request with a 16-bit command id and a 32-bit transaction id other
  -- than 0 is no duplicate, whatever the device has seen before.
  pub reset_device_state_forgets :
      (s : Session P) (cmd tx : ℕ)
      → cmd < 2 ^ 16
      → tx < 2 ^ 32
      → tx ≢ 0
      → (on_request P (reset_device_state P s) cmd tx).0.is_duplicate ≡ false
  unfolding reset_device_state insert_all contains
  reset_device_state_forgets s cmd tx hc ht h =
      is_duplicate-on_request P (reset_device_state P s) cmd tx
      ∙ insert_all_no_false_positive P.size_bits seen_id_ring_bits [] (compose_dedup_key cmd tx)
          refl
          (==_ne 0 (compose_dedup_key cmd tx)
            (λ e. compose_dedup_key_ne_zero cmd tx hc ht h (sym e)))
