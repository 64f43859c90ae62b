-- ===== src/Tests/Storage.antt =====
-- Saving and loading, at concrete values.
use le_forum.Common.{ℕ, ◌∷◌, ◌≡◌, refl, [], ◌++◌, arith, ok, map}
use le_forum.Clib.Text.{before_nul, has_nul, before_nul-IsText}
use le_forum.Conf.{lestatus_ok}
use le_forum.Forum.{LeThread, lethread_message_count}
use le_forum.Disk.{Disk, read_file, file_exists, write_file, same_file, file_lemessages}
use le_forum.ForumIo.{lemessages_load}
use le_forum.ForumIo.Messages.{lemessages_bytes, reload, lemessages_load_lem}
use le_forum.Clib.Strings.{codes, IsText}
use le_forum.Forum.Posting.{new_lemessage}
use le_forum.Server.{Server, lethread_get_by_id}
use le_forum.Server.Query.Post.{with_post, post_message_accepted}
use le_forum.Saving.{Steps, stop, step, posted, found, rounds}
use le_forum.Saving.Log.{log, entries}
use le_forum.Saving.Reach.{messages_reach_disk}
use le_forum.Tests.Samples.{server, news, empty_disk}

-- A disk with the messages of the thread.
full_disk : Disk
full_disk = write_file 0 file_lemessages (lemessages_bytes news.messages) empty_disk

abbrev bare_news : LeThread
bare_news = record news { messages = [] }

lemessages_load_lem_example :
    lemessages_load bare_news full_disk
    ≡ ok (lestatus_ok, record bare_news { messages = [] ++ map reload news.messages })
unfolding has_nul before_nul lethread_message_count full_disk write_file read_file file_exists
    same_file
lemessages_load_lem_example =
    lemessages_load_lem bare_news news.messages full_disk
      (
        record {
          id_fits = omega arith;
          flag_fits = omega arith;
          text = refl;
          short_enough = omega arith;
        },
        (
          record {
            id_fits = omega arith;
            flag_fits = omega arith;
            text = refl;
            short_enough = omega arith;
          },
          tt,
        ),
      )
      refl refl refl

abbrev answered : Server
answered = with_post server 0 news (codes "cats" ++ (0 ∷ [])) 0

cats-IsText : IsText (codes "cats")
unfolding before_nul
cats-IsText = before_nul-IsText (codes "cats")

-- A message is posted, and its thread is looked up.
run : Steps server (new_lemessage news (codes "cats" ++ (0 ∷ [])) 0 ∷ []) answered
unfolding lethread_get_by_id
run =
    step
      (posted 0 news (codes "cats") 0 cats-IsText (omega arith) (omega arith) (
        post_message_accepted server 0 news (codes "cats") 0 cats-IsText (omega arith)
          (omega arith)))
      (step (found 7 refl) stop)

messages_reach_disk_example :
    (s'' : Server) × (rounds 1 answered ≡ ok s'')
    × (s''.lemessage_queries ≡ [])
    × ((id : ℕ)
        → read_file id file_lemessages s''.disk
          ≡ log id server ++ entries id (new_lemessage news (codes "cats" ++ (0 ∷ [])) 0 ∷ []))
messages_reach_disk_example = messages_reach_disk tt run
