-- ===== src/Registry.antt =====
-- pkg/registry/types.go: what the other parts of the program ask of the registry.
-- `W` is the state of the registry's service; a subscription is the list of events that it delivers.
use offlinepush.Base.{ℕ, List, String, Option}
use offlinepush.Base.Result.{Error, Result}

pub record ServiceInstance : Type 0 where
  pub address : String
  pub service_name : String
  pub weight : ℕ  -- uint32
  pub note : String

pub data EventType : Type 0 where
  unknown put delete update : EventType

pub record Event : Type 0 where
  pub type : EventType
  pub ins : ServiceInstance

abbrev pub no_instance : ServiceInstance
no_instance = record { address = ""; service_name = ""; weight = 0; note = "" }

-- The operations of the interface `Registry` that return at once; `Subscribe` hands out a channel,
-- whose events are the arguments of the handlers in the other modules.
pub record Registry (W : Type 0) : Type 0 where
  pub register : ServiceInstance → W → Option Error × W
  pub unregister : ServiceInstance → W → Option Error × W
  pub list_service : String → W → Result (List ServiceInstance) × W
  pub close : W → Option Error × W
