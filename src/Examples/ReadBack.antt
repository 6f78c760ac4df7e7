-- ===== src/Examples/ReadBack.antt =====
-- The first update of a fresh store is created and read.
use fx_quotes.Prelude.{◌≡◌, refl, true, [], ◌∷◌, none, some, ok}
use fx_quotes.Entity.Update.{QuoteUpdate, pending}
use fx_quotes.Postgres.Schema.{Db}
use fx_quotes.Postgres.Store.{create_or_get, get_update}
use fx_quotes.Postgres.Steps.{run, empty_db}
use fx_quotes.Postgres.Invariant.{run-empty-Inv}
use fx_quotes.Postgres.ReadBack.{create_or_get-get_update}
use fx_quotes.Examples.Entity.{pad_numeric}
use fx_quotes.Examples.Postgres.{running}
use fx_quotes.Examples.World.{limits, pair, first_id, create_io, create_command, creating}

abbrev pub first_update : QuoteUpdate
first_update = record {
  id = first_id;
  pair = pair;
  status = pending;
  attempt = 0;
  quote = none;
  failure_code = [];
  created_at = 10;
}

abbrev pub created_db : Db
created_db = run pad_numeric limits empty_db (creating ∷ [])

pub first_update-created :
    create_or_get 2 create_io create_command empty_db ≡ (created_db, ok (first_update, true))
unfolding running
first_update-created = refl

create_or_get-get_update_example :
    get_update (λ t. some t) none first_id created_db ≡ (created_db, ok first_update)
create_or_get-get_update_example =
    create_or_get-get_update 2 create_io create_command (λ t. some t) empty_db created_db
      first_update true first_update-created (run-empty-Inv pad_numeric limits (creating ∷ [])) refl
