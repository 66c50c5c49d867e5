-- ===== src/Tests/Filters.antt =====
-- What the filter language says of a small payload.
use vexdb.Prelude.{some}
use vexdb.Payload.Logic.{IsMeant, matches-IsMeant}
use vexdb.Tests.Numbers.{numbers}

matches-IsMeant_example : IsMeant (some 4)
matches-IsMeant_example = matches-IsMeant (some 4)
