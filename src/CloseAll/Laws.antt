-- ===== src/CloseAll/Laws.antt =====
-- The loop of scripts/close_all_channels.py over the channels.
use cronos_stream.Prelude.{String, true, ◌≡◌, List, [], ◌∷◌, ◌++◌, arith}
use cronos_stream.Prelude.Int.{ℤ, pos, ltb_ℤ, int_has_eq}
use cronos_stream.Python.{ok, raised, exception}
use cronos_stream.World.{World, Trace}
use cronos_stream.CloseAll.{Stored, Views, close_one, close_each}

module _ (w : World) (views : Views) (key : String) (now : ℤ) where
  close_one_expired :
      (channel : String) (past : Trace) {c : Stored}
      → views.stored past channel ≡ ok c
      → ltb_ℤ (pos 0) c.balance ≡ true
      → ltb_ℤ c.expiry now ≡ true
      → close_one w views key now channel past ≡ (raised (exception "NameError"), past)
  unfolding close_one
  close_one_expired channel past found funded expired = ground arith

  -- The loop stops at the first channel that still holds money and has expired: it raises the
  -- `NameError` of the missing `close_via_contract`, with the calls made for the channels before
  -- it, and neither that channel nor any behind it is closed.
  pub close_each_stops :
      (channels rest : List String) (channel : String) (past : Trace) {c : Stored}
      → (close_each w views key now channels past).0 ≡ ok tt
      → views.stored (close_each w views key now channels past).1 channel ≡ ok c
      → ltb_ℤ (pos 0) c.balance ≡ true
      → ltb_ℤ c.expiry now ≡ true
      → close_each w views key now (channels ++ (channel ∷ rest)) past
        ≡ (raised (exception "NameError"), (close_each w views key now channels past).1)
  unfolding close_each
  close_each_stops [] rest channel past h found funded expired =
      ground (arith, close_one_expired channel past found funded expired)
  close_each_stops (first ∷ channels) rest channel past h found funded expired =
      grind (arith, close_each_stops channels rest channel)
