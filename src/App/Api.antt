-- ===== src/App/Api.antt =====
-- `quote.Service` as the service of the handlers, and what a stored row becomes in an answer.
pub mod Rows
pub mod Reads
pub mod Retries
pub mod Locations
pub mod Follow
use fx_quotes.Usecase.Service.{Service, create_update}
use fx_quotes.Http.Handler.{Api}

abbrev pub service_api : {S : Type 0} → Service S → Api S
service_api service = record {
  create_update = create_update service;
  get_update = service.store.get_update;
  get_latest = service.store.get_latest;
}
