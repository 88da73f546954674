-- ===== src/Filters/Dispatch.antt =====
-- filters/basicfilters.rs, filters/limiter.rs and filters/diffeq.rs: `update_parameters` of the trait
-- `Filter`, which panics ("Invalid config change!") for the configuration of another filter.
use astra_camilla_dsp.Common.{Option, none, some}
use astra_camilla_dsp.Filters.Gain as G
use astra_camilla_dsp.Filters.Delay as D
use astra_camilla_dsp.Filters.Volume as V
use astra_camilla_dsp.Filters.Limiter as L
use astra_camilla_dsp.Filters.DiffEq as E
use astra_camilla_dsp.Arith.{Arith}
use astra_camilla_dsp.Filters.Delay.{RingBuffer, Delay, DelayParameters}
use astra_camilla_dsp.Filters.Gain.{Gain, GainParameters}
use astra_camilla_dsp.Filters.Volume.{Casts, Volume, VolumeParameters}
use astra_camilla_dsp.Filters.Limiter.{Limiter, LimiterParameters}
use astra_camilla_dsp.Filters.DiffEq.{DiffEq, DiffEqParameters}

-- `config::Filter`; `O` has the parameters of the filters that are not modelled.
pub data FilterParameters (R S O : Type 0) : Type 0 where
  gain : GainParameters S → FilterParameters R S O
  delay : DelayParameters S → FilterParameters R S O
  volume : VolumeParameters R → FilterParameters R S O
  limiter : LimiterParameters S → FilterParameters R S O
  diff_eq : DiffEqParameters S → FilterParameters R S O
  other : O → FilterParameters R S O

module _ {R S O : Type 0} ⦃r : Arith R⦄ ⦃a : Arith S⦄ ⦃cast : Casts R S⦄ where
  unfoldable pub update_gain : Gain S → FilterParameters R S O → Option (Gain S)
  update_gain f (FilterParameters.gain config) = some (G.update_parameters f config)
  update_gain f config = none

  unfoldable pub update_volume : Volume R S → FilterParameters R S O → Option (Volume R S)
  update_volume f (FilterParameters.volume config) = some (V.update_parameters f config)
  update_volume f config = none

  unfoldable pub update_limiter : Limiter S → FilterParameters R S O → Option (Limiter S)
  update_limiter f (FilterParameters.limiter config) = some (L.update_parameters f config)
  update_limiter f config = none

  unfoldable pub update_diff_eq : DiffEq S → FilterParameters R S O → Option (DiffEq S)
  update_diff_eq f (FilterParameters.diff_eq config) = some (E.update_parameters f config)
  update_diff_eq f config = none

module _ {R S Q O : Type 0} ⦃a : Arith S⦄ ⦃rb : RingBuffer S Q⦄ where
  unfoldable pub update_delay : Delay S Q → FilterParameters R S O → Option (Delay S Q)
  update_delay f (FilterParameters.delay config) = some (D.update_parameters f config)
  update_delay f config = none
