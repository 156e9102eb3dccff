-- ===== src/Api/Examples/Store.antt =====
-- Listings of a store with two jobs.
use ai_microservices.Api.Job.{Job}
use ai_microservices.Api.Repository.Listing.{matching, by_user, by_status, by_type, before, key_lt}
use ai_microservices.Api.Repository.{Query, SortField, SortOrder}
use ai_microservices.Api.Repository.Listing.{matching, before, by_user, by_status, by_type, key_lt}
use ai_microservices.Base.{none, some, List}

abbrev by_priority : Query
by_priority = record {
  user_id = some "u1";
  status = none;
  job_type = some "train";
  limit = 2;
  offset = 0;
  sort_by = SortField.priority;
  sort_order = SortOrder.asc;
}
