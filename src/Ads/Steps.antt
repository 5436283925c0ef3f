-- ===== src/Ads/Steps.antt =====
-- Sequences of method calls on one ADSClient, by whichever threads: each call is a step.
use phone_app.Base.{ℕ, List, [], ◌∷◌, Text}
use phone_app.Ads.State.{PlcType, Value, Pyads, AdsClient}
use phone_app.Ads.Io.{
  read, write, read_by_handle, write_by_handle, read_batch, write_batch, get_handle,
}
use phone_app.Ads.Connect.{connect, disconnect, reconnect_wake, stop_reconnect}

pub data Call : Type 0 where
  call_read : Text → PlcType → Call
  call_write : Text → Value → PlcType → Call
  call_read_handle : ℕ → PlcType → Call
  call_write_handle : ℕ → Value → PlcType → Call
  call_read_batch : List (Text × PlcType) → Call
  call_write_batch : List (Text × Value) → Call
  call_get_handle : Text → Call
  call_connect call_disconnect call_wake call_stop : Call

module _ {W : Type 0} (p : Pyads W) where
  unfoldable pub step : Call → AdsClient → W → AdsClient × W
  step (call_read v t) c w = let (_, d, w') = read p v t c w in (d, w')
  step (call_write v x t) c w = let (_, d, w') = write p v x t c w in (d, w')
  step (call_read_handle h t) c w = let (_, d, w') = read_by_handle p h t c w in (d, w')
  step (call_write_handle h x t) c w = let (_, d, w') = write_by_handle p h x t c w in (d, w')
  step (call_read_batch vs) c w = let (_, d, w') = read_batch p vs c w in (d, w')
  step (call_write_batch vs) c w = write_batch p vs c w
  step (call_get_handle v) c w = let (_, d, w') = get_handle p v c w in (d, w')
  step call_connect c w = let (_, d, w') = connect p c w in (d, w')
  step call_disconnect c w = disconnect p c w
  step call_wake c w = let (_, d, w') = reconnect_wake p c w in (d, w')
  step call_stop c w = (stop_reconnect c, w)

  unfoldable pub run : List Call → AdsClient → W → AdsClient × W
  run [] c w = (c, w)
  run (k ∷ ks) c w = let (d, w') = step k c w in run ks d w'
