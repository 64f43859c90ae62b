-- ===== src/Tests/Exchanges.antt =====
-- Requests to a small server and their responses, at concrete values.
use le_forum.Common.{
  ℕ, ◌+◌, ◌%◌, ◌^◌, ◌≡◌, ◌<◌, refl, [], ◌∷◌, ◌++◌, arith, Bool, true, some, none, ok, length, ◌↔◌,
  if◌then◌else◌, drop, ◌≢◌,
}
use le_forum.Common.Command.{done, Run}
use le_forum.Clib.Strings.{Bytes, codes, IsText}
use le_forum.Clib.Text.{before_nul, has_nul, before_nul-IsText}
use le_forum.Clib.Words.{le_value, le_bytes}
use le_forum.Conf.{lestatus_ok, lestatus_nfnd}
use le_forum.Security.{rand_uint64_t}
use le_forum.Forum.{lethread_message_count}
use le_forum.Protocol.{chars, cthr}
use le_forum.Server.{
  Server, lethread_get_by_id, place_of, load_missing_messages, load_missing_author,
}
use le_forum.ForumIo.{leauthor_load, lemessages_load}
use le_forum.Disk.{file_exists, read_file, get_lefile}
use le_forum.Server.Response.{Junk, junk_bytes, gthr_response}
use le_forum.Server.Response.Layout.{
  gthr_answer, gthr_response_lem, HasStrings, thread_bytes, messages_bytes, message_bytes,
}
use le_forum.Server.Query.{query_process}
use le_forum.Server.Query.Create.{with_lethread, cthr_answer}
use le_forum.Server.Query.Post.{with_post}
use le_forum.Client.Request.{gen_query_gthr, gen_query_cthr, gen_query_cmsg}
use le_forum.Client.Response.{parse_response_gthr, read_response_cthr, parse_response_cthr}
use le_forum.Client.Response.View.{texts, ids, ids_from}
use le_forum.Exchange.{packet, received, answer, status_only}
use le_forum.Exchange.Read.{IsThread, view, read_exchange, read_missing_exchange}
use le_forum.Exchange.Create.{
  cthr_body, create_exchange, declared_size_ignored, parse_response_cthr_overflows,
}
use le_forum.Exchange.Post.{post_signed_exchange, post_unknown_exchange}
use le_forum.Server.{get_version}
use le_forum.Client.Request.{gen_query_meta}
use le_forum.Client.Response.{read_response_meta, parse_response_meta}
use le_forum.Exchange.Meta.{meta_exchange, told}
use le_forum.Clib.Strings.{is_infix, is_prefix}
use le_forum.Forum.{LeThread}
use le_forum.Security.{Entropy}
use le_forum.Client.Request.{gen_query_fthr}
use le_forum.Client.Response.{parse_response_fthr}
use le_forum.Client.Response.Search.{Heard}
use le_forum.Server.Response.Search.{all_found_bytes, found_bytes}
use le_forum.Exchange.Search.{search_exchange, matching}
use le_forum.Common.{List}
use le_forum.Server.{lethread_find}
use le_forum.Exchange.Find.{Contains, Selected, lethread_find_selects}
use le_forum.Tests.Samples.{server, news, draws, random, author, token}

abbrev pub junk : Junk
junk _ = 9

abbrev pub number : ℕ
number = 0x0101_0101_0101_0101

news-HasStrings : HasStrings news
unfolding has_nul
news-HasStrings = record { topic = refl; texts = (refl, (refl, tt)) }

pub news-IsThread : IsThread news
unfolding before_nul lethread_message_count
news-IsThread = record {
  strings = news-HasStrings;
  counted = record { first_fits = omega arith; next_fits = omega arith; counted = refl };
  posted = (
    record { long_enough = omega arith; short_enough = omega arith; id_fits = omega arith },
    (record { long_enough = omega arith; short_enough = omega arith; id_fits = omega arith }, tt),
  );
  topic_fits = omega arith;
  count_fits = omega arith;
}

pub answer_bound : length (gthr_answer junk 0 news) < 2 ^ 61
unfolding thread_bytes messages_bytes message_bytes chars le_bytes before_nul junk_bytes
answer_bound = omega arith

pub found_news : lethread_get_by_id 0 server ≡ ok (some (0, news), server)
unfolding lethread_get_by_id
found_news = refl

gthr_response_lem_example : gthr_response junk 0 news ≡ ok (gthr_answer junk 0 news)
gthr_response_lem_example = gthr_response_lem junk 0 news news-HasStrings answer_bound

read_exchange_example :
    (request : Bytes) × (response : Bytes) × (gen_query_gthr 0 ≡ ok request)
    × (query_process junk (packet request []) (length request) server
        ≡ ok (answer response, server))
    × (parse_response_gthr (received response) (length response) random
        ≡ done (view junk 0 news number) (drop 8 random))
    × (texts (view junk 0 news number).messages ≡ texts news.messages)
    × (ids (view junk 0 news number).messages ≡ ids_from (number % 0xffff_ffff) 2)
unfolding rand_uint64_t le_value
read_exchange_example =
    read_exchange junk server server 0 (omega arith) [] 0 news random (drop 8 random) number
      found_news news-IsThread answer_bound refl

missing_7 : lethread_get_by_id 7 server ≡ ok (none, server)
unfolding lethread_get_by_id
missing_7 = refl

read_missing_exchange_example :
    (request : Bytes) × (gen_query_gthr 7 ≡ ok request)
    × (query_process junk (packet request []) (length request) server
        ≡ ok (status_only lestatus_nfnd, server))
read_missing_exchange_example =
    read_missing_exchange junk server server 7 (omega arith) [] missing_7

topic : Bytes
topic = codes "cats"

topic-IsText : IsText topic
unfolding topic
topic-IsText = (omega arith, (omega arith, (omega arith, (omega arith, tt))))

create_exchange_example :
    (request : Bytes) × (gen_query_cthr (topic ++ (0 ∷ [])) (length topic) ≡ ok request)
    × (query_process junk (packet request []) (length request) server
        ≡ ok (
          answer (cthr_answer junk 1 draws.token),
          with_lethread server draws (topic ++ (0 ∷ [])),
        ))
    × (read_response_cthr (received (cthr_answer junk 1 draws.token)) random
        ≡ done (record { thread_id = 1; token = draws.token ++ (0 ∷ []) }) random)
unfolding topic
create_exchange_example =
    create_exchange junk server draws [] topic (0 ∷ []) topic-IsText (omega arith) (omega arith)
      (omega arith) random

declared_size_ignored_example :
    query_process junk (packet (chars cthr ++ cthr_body 3 topic) []) (20 + length topic) server
    ≡ ok (answer (cthr_answer junk 1 draws.token), with_lethread server draws (topic ++ (0 ∷ [])))
unfolding topic
declared_size_ignored_example =
    declared_size_ignored junk server draws [] 3 topic topic-IsText (omega arith) (omega arith)
      (omega arith)

parse_response_cthr_overflows_example :
    parse_response_cthr (received (cthr_answer junk 1 draws.token)) 43 random ≡ Run.fault
unfolding topic
parse_response_cthr_overflows_example =
    parse_response_cthr_overflows junk server draws [] topic [] topic-IsText (omega arith)
      (omega arith) (omega arith) random 43

pub token-IsText : IsText token
unfolding before_nul
token-IsText = before_nul-IsText token

post_signed_exchange_example :
    (request : Bytes) × (by_author : Bool) × (gen_query_cmsg 0
        (topic ++ [])
        (length topic)
        (some (token ++ []))
      ≡ ok request)
    × (query_process junk (packet request []) (length request) server
        ≡ ok (
          status_only lestatus_ok,
          with_post server 0 news (topic ++ (0 ∷ [])) (if by_author then 1 else 0),
        ))
    × ((by_author ≡ true) ↔ (author.token ≡ token))
unfolding topic
post_signed_exchange_example =
    post_signed_exchange junk server server 0 0 news (omega arith) found_news topic [] []
      topic-IsText (omega arith) (omega arith) author token [] refl token-IsText refl token-IsText
      refl

-- A thread whose author is not known, also not on disk.
abbrev orphan : LeThread
orphan = record news { author = none }

abbrev orphaned : Server
orphaned = record server { lethreads = orphan ∷ [] }

found_orphan : lethread_get_by_id 0 orphaned ≡ ok (some (0, orphan), orphaned)
unfolding lethread_get_by_id place_of load_missing_messages load_missing_author leauthor_load
    lemessages_load file_exists read_file get_lefile
found_orphan = refl

post_unknown_exchange_example :
    (request : Bytes) × (flag : ℕ) × (gen_query_cmsg 0
        (topic ++ [])
        (length topic)
        (some (token ++ []))
      ≡ ok request)
    × (query_process junk (packet request []) (length request) orphaned
        ≡ ok (status_only lestatus_ok, with_post orphaned 0 orphan (topic ++ (0 ∷ [])) flag))
    × (flag ≢ 0)
unfolding topic
post_unknown_exchange_example =
    post_unknown_exchange junk orphaned orphaned 0 0 orphan (omega arith) found_orphan topic [] []
      topic-IsText (omega arith) (omega arith) token [] refl token-IsText refl

meta_exchange_example :
    (request : Bytes) × (response : Bytes) × (gen_query_meta ≡ ok request)
    × (query_process junk (packet request []) (length request) server
        ≡ ok (answer response, server))
    × (read_response_meta (received response) random ≡ done (told 1 get_version) random)
    × (parse_response_meta (received response) (length response) random ≡ Run.fault)
meta_exchange_example = meta_exchange junk server [] random (omega arith)

wanted-IsText : IsText (codes "new")
unfolding before_nul
wanted-IsText = before_nul-IsText (codes "new")

search_exchange_example :
    (request : Bytes) × (response : Bytes) × (cs : List LeThread) × (e' : Entropy) × (gen_query_fthr
        (codes "new" ++ [])
        3
      ≡ ok request)
    × (query_process junk (packet request []) (length request) server
        ≡ ok (answer response, server))
    × (parse_response_fthr (received response) (length response) random ≡ done cs e')
    × Heard (matching (codes "new") (news ∷ [])) cs
unfolding is_infix is_prefix before_nul has_nul all_found_bytes found_bytes chars le_bytes
search_exchange_example =
    search_exchange junk server (codes "new") [] [] wanted-IsText (omega arith) (omega arith)
      (refl, tt) (omega arith) random (record { id = omega arith; topic = omega arith }, tt)
      (omega arith)

lethread_find_selects_example :
    (us : List LeThread) × (lethread_find (codes "new" ++ (0 ∷ [])) (news ∷ []) ≡ ok us)
    × Selected (Contains (codes "new")) (news ∷ []) us
unfolding has_nul
lethread_find_selects_example =
    lethread_find_selects (codes "new") (news ∷ []) wanted-IsText (refl, tt)
