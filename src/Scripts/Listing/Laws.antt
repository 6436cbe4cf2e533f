-- ===== src/Scripts/Listing/Laws.antt =====
-- The states that scripts/list_open_channels.py prints, and what scripts/close_all_channels.py does.
use cronos_stream.Prelude.{
  String, ◌≡◌, Bool-cases, inl, inr, arith, if◌then◌else◌, ◌==◌, string_has_eq,
}
use cronos_stream.Prelude.Int.{ℤ, pos, ltb_ℤ}
use cronos_stream.Python.{ok, raised, exception, pure, ◌>>=◌}
use cronos_stream.World.{World, Trace, Effect}
use cronos_stream.CloseAll.{Stored, Views, close_via_dual_key, close_one}
use cronos_stream.Scripts.Listing.{listed_status}

-- The closing of a channel whose state is known.
abbrev pub closing : World → Views → String → String → Stored → String → Effect (Unit {0})
closing w views key channel c status past =
    if status == "OPEN"
    then (do closed ← close_via_dual_key w views key channel c.sequence; pure tt) past
    else if status == "CLOSED/EMPTY"
    then (ok tt, past)
    else (raised (exception "NameError"), past)

module _ (w : World) (views : Views) (key channel : String) (now : ℤ) (past : Trace)
    (c : Stored) where
  close_one_by :
      (status : String)
      → listed_status c now ≡ status
      → close_one w views key now channel past ≡ closing w views key channel c status past
      → close_one w views key now channel past
        ≡ closing w views key channel c (listed_status c now) past
  close_one_by status e h = rw e h

  -- A channel that the list shows as open is closed by the two keys, one that it shows as closed or
  -- empty is passed over, and at one that it shows as expired the closing raises a `NameError`.
  pub close_one-listed_status :
      views.stored past channel ≡ ok c
      → close_one w views key now channel past
        ≡ closing w views key channel c (listed_status c now) past
  unfolding close_one listed_status
  close_one-listed_status found = elim (Bool-cases (ltb_ℤ (pos 0) c.balance)) [
    | inr empty ↦ close_one_by "CLOSED/EMPTY" (ground arith) (ground arith)
    | inl funded ↦ elim (Bool-cases (ltb_ℤ c.expiry now)) [
      | inl expired ↦ close_one_by "EXPIRED (Funds Locked)" (ground arith) (ground arith)
      | inr current ↦ close_one_by "OPEN" (ground arith) (ground arith)
    ]
  ]
