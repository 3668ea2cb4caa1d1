-- ===== src/Classical/Examples.antt =====
-- The classical server on the sample rounds.
use dropout.Prelude.{refl, replicate}
use dropout.Wire.RoundTrip.{header_of}
use dropout.Samples.{sample_platform, sample_exchange, sample_bridge}
use dropout.Bridge.Handlers.WellFormed.{IsWellFormed}
use dropout.Classical.{dispatch_message}
use dropout.Classical.WellFormed.{classical_dispatch-IsWellFormed}

classical_dispatch-IsWellFormed_example :
    IsWellFormed
      (dispatch_message sample_exchange sample_platform
        (header_of 0x11 7 2 0 32)
        (replicate 32 9)
        5
        sample_bridge).1
classical_dispatch-IsWellFormed_example =
    classical_dispatch-IsWellFormed sample_exchange sample_platform (header_of 0x11 7 2 0 32)
      (replicate 32 9) 5 sample_bridge (((refl, (refl, tt)), ((refl, tt), (tt, tt))), tt)
