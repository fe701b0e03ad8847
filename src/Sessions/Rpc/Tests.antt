-- ===== src/Sessions/Rpc/Tests.antt =====
-- A handle of "srvsvc" under the id 5, and an open and a close beside it.
use cifsd.Base.{ℕ, ◌≡◌, refl, Bool, true, [], ◌∷◌, ◌==◌, if◌then◌else◌, arith}
use cifsd.Ids.Small.{small, small-IdaLaws}
use cifsd.Sessions.Rpc.{
  Rpc, wkssvc, rpc_method, cifsd_session_rpc_method, cifsd_session_rpc_open,
  cifsd_session_rpc_close,
}
use cifsd.Sessions.Rpc.Held.{Held, IsHeld, IsOpened, rpc_open-IsOpened}
use cifsd.Sessions.Rpc.Close.{rpc_close-IsHeld}

abbrev one_handle : Rpc (ℕ → Bool)
one_handle = record {
  ipc_ida = λ id. id == 5;
  rpc_handle_list = record { id = 5; method = 2 } ∷ [];
}

one_handle-IsHeld : IsHeld small one_handle
unfolding IsHeld Held
one_handle-IsHeld = (refl, λ e. ground arith, tt, tt)

rpc_open-IsOpened_example :
    IsOpened small one_handle
      (rpc_method wkssvc)
      (cifsd_session_rpc_open small wkssvc (record { memory = true; answer = true }) one_handle)
rpc_open-IsOpened_example =
    rpc_open-IsOpened small small-IdaLaws one_handle one_handle-IsHeld wkssvc
      (record { memory = true; answer = true })

rpc_close-IsHeld_example :
    IsHeld small (cifsd_session_rpc_close small 5 one_handle)
    × (cifsd_session_rpc_method (cifsd_session_rpc_close small 5 one_handle) 5
        ≡ (if 5 == 5 then 0 else cifsd_session_rpc_method one_handle 5))
rpc_close-IsHeld_example = rpc_close-IsHeld small small-IdaLaws one_handle 5 5 one_handle-IsHeld
