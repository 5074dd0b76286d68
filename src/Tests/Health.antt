-- ===== src/Tests/Health.antt =====
-- The health of one account.
use gateway_platform.Contracts.Events.{Release}
use gateway_platform.Control.Health.{AccountHealth}
use gateway_platform.Contracts.Types.{ErrorClass, network_error, rate_limited_unknown, blocked}
use gateway_platform.Base.{none, [], ◌∷◌, List}
use gateway_platform.Base.Text.{codes}
use gateway_platform.Tests.Ledger.{release}

abbrev of_class : ErrorClass → Release
of_class c = record release { error_class = c }

abbrev healthy : AccountHealth
healthy = record {
  status = codes "active";
  last_error_class = none;
  last_error_at = none;
  consecutive_failures = 0;
  cooldown_until = none;
  excluded_models = [];
}

abbrev limits : List Release
limits = of_class rate_limited_unknown ∷ of_class network_error ∷ of_class blocked ∷ []
