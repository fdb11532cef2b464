-- ===== src/Runtime/OnBus.antt =====
-- The runtime's bus is stm32/app/src/can/bus.c.
use beamforming_software.Prelude.{none, some, if◌then◌else◌}
use beamforming_software.Can.Protocol.{zero_frame}
use beamforming_software.Can.Bus as CanBus
use beamforming_software.Can.Bus.{CanHardware, BusState}
use beamforming_software.Runtime.{Bus}

-- The frame that `can_runtime_service_next` passes to `can_bus_receive` is zeroed.
abbrev pub bus_ops : {H : Type 0} → CanHardware H → Bus (BusState H)
bus_ops hw = record {
  setup = λ node s. CanBus.setup hw node s;
  receive = λ s.
      let (found, frame, s') = CanBus.receive hw zero_frame s in
      (if found then some frame else none, s');
  send = λ frame priority s. CanBus.send hw frame priority s;
  rx_dropped = λ s. CanBus.rx_dropped hw s;
  tx_dropped = λ s. CanBus.tx_dropped hw s;
  is_bus_off = λ s. CanBus.is_bus_off hw s;
}
