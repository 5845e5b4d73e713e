-- ===== src/Tests/Listing.antt =====
-- Three stored streams, listed one per page.
use cc_core_server.Common.{ℕ, String, List, [], ◌∷◌, ok, returns, ◌≡◌, refl, arith}
use cc_core_server.Common.Int.{ℤ, pos}
use cc_core_server.Common.Text.{contains, text_lt}
use cc_core_server.Common.SyncMap
use cc_core_server.Service.{StreamFilter, StreamList}
use cc_core_server.Server.{StreamRecord, Server}
use cc_core_server.Server.Records.{new_record, default_mode, finish}
use cc_core_server.Server.Listing.{
  IsSorted, filter_streams, stream_list, list_entry, is_stream_fits_filter, collect,
}
use cc_core_server.Server.Listing.Order.{
  by_started, descending, comes_before, turned, filter_streams-IsSorted,
}
use cc_core_server.Server.Listing.Fitting.{Collected, collect-Collected}
use mathlib.Core.List.{Perm}
use cc_core_server.Server.Listing.Response.{decode_all, sorted_streams, IsPage, stream_list-IsPage}
use cc_core_server.Server.Listing.Whole.{read_pages, read_pages_lem}
use cc_core_server.Tests.Db.{Doc, stream_doc}
use cc_core_server.Tests.Sample.{sample, config, empty_server}
use cc_core_server.Tests.Sorting.{insertion}

abbrev pub record_of : String → ℕ → StreamRecord
record_of uuid at =
    new_record (default_mode (config "auto")) uuid "h1"
      (record { ip = "127.0.0.1"; port = pos 40000 }) at

abbrev pub records : List StreamRecord
records = record_of "b" 3 ∷ record_of "c" 1 ∷ finish 9 (record_of "a" 2) ∷ []

abbrev pub values : List (String × Doc)
values =
    ("k1", stream_doc (record_of "b" 3))
    ∷ ("k2", stream_doc (record_of "c" 1))
    ∷ ("k3", stream_doc (finish 9 (record_of "a" 2)))
    ∷ []

abbrev pub three_streams : Server sample
three_streams = record empty_server {
  stream_storage = record { name = "stream"; db = ("stream", values) ∷ [] };
}

-- The running streams, by their identifiers from z to a.
abbrev by_uuid_down : ℤ → StreamFilter
by_uuid_down page = record {
  search_phrase = "";
  launch_modes = [];
  statuses = "running" ∷ [];
  sort_by = "uuid";
  sort_order = "desc";
  page_size = pos 1;
  page = page;
}

stream_list-IsPage_example :
    (r : StreamList) × (stream_list insertion three_streams (by_uuid_down (pos 2)) ≡ returns (ok r))
    × IsPage (sorted_streams insertion (by_uuid_down (pos 2)) records) 2 1 r
unfolding decode_all SyncMap.load
stream_list-IsPage_example =
    stream_list-IsPage insertion three_streams (by_uuid_down (pos 2)) records refl refl 2 1 refl
      refl (omega arith) (omega arith) (omega arith) (omega arith)

read_pages_lem_example :
    read_pages insertion three_streams (by_uuid_down (pos 0)) 2
    ≡ sorted_streams insertion (by_uuid_down (pos 0)) records
unfolding decode_all is_stream_fits_filter filter_streams SyncMap.load contains new_record text_lt
    list_entry
read_pages_lem_example =
    read_pages_lem insertion three_streams (by_uuid_down (pos 0)) records refl refl 1 refl
      (omega arith) 2 (omega arith) (omega arith) (omega arith)

filter_streams-IsSorted_example :
    IsSorted (turned descending (comes_before by_started)) (
      filter_streams insertion
        (list_entry (record_of "c" 1) ∷ list_entry (record_of "b" 3) ∷ [])
        "started"
        "desc")
    × Perm
        (filter_streams insertion
          (list_entry (record_of "c" 1) ∷ list_entry (record_of "b" 3) ∷ [])
          "started"
          "desc")
        (list_entry (record_of "c" 1) ∷ list_entry (record_of "b" 3) ∷ [])
filter_streams-IsSorted_example =
    filter_streams-IsSorted insertion
      (list_entry (record_of "c" 1) ∷ list_entry (record_of "b" 3) ∷ []) by_started descending

collect-Collected_example :
    Collected ⦃x = sample⦄ (by_uuid_down (pos 1)) values (collect (by_uuid_down (pos 1)) values)
collect-Collected_example = collect-Collected (by_uuid_down (pos 1)) values
