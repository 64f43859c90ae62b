-- ===== src/Forum.antt =====
-- Threads, messages and authors: src/lib/forum.h and src/lib/forum.c. A `char *` is the contents of
-- its allocation. The queue of a thread's messages is a list, front first, and is never null.
pub mod Posting
pub mod Tokens
use le_forum.Common.{
  ℕ, ◌+◌, ◌-◌, ◌%◌, List, [], ◌∷◌, ◌++◌, ltb, if◌then◌else◌, ◌||◌, Option, none, some, Bool,
  Outcome, ok, replicate,
}
use le_forum.Common.Result.{◌>>=◌}
use le_forum.Clib.Strings.{Bytes, strlen, strncmp_eq, strncpy}
use le_forum.Clib.Words.{u64_mod, u32_mod}
use le_forum.Conf.{LeStatus, lestatus_ok, lestatus_idat, min_message_size, max_message_size}
use le_forum.Security.{Entropy, rand_uint64_t, rand_string}

abbrev pub token_size : ℕ
token_size = 24

-- `by_lethread_author` is the bit pattern of an `int`. `lethread` is the id of the thread that the
-- pointer leads to, and `none` where the pointer was never written.
pub record LeMessage : Type 0 where
  pub id : ℕ
  pub text : Bytes
  pub by_lethread_author : ℕ
  pub lethread : Option ℕ

pub record LeAuthor : Type 0 where
  pub id : ℕ
  pub token : Bytes

pub record LeThread : Type 0 where
  pub id : ℕ
  pub first_message_id : ℕ
  pub next_message_id : ℕ
  pub topic : Bytes
  pub messages : List LeMessage
  pub author : Option LeAuthor

pub record LeMeta : Type 0 where
  pub min_message_size : ℕ
  pub max_message_size : ℕ
  pub min_topic_size : ℕ
  pub max_topic_size : ℕ
  pub version : Bytes
  pub version_size : ℕ
  pub thread_count : ℕ

unfoldable pub lethread_create : Bytes → ℕ → Entropy → Outcome (LeThread × Entropy)
lethread_create topic lethread_id e = do
  topic_size ← strlen topic
  (r, e) ← rand_uint64_t e
  copy ← strncpy topic topic_size
  ok (
    record {
      id = lethread_id;
      first_message_id = r % 0xffff_ffff;
      next_message_id = r % 0xffff_ffff;
      topic = copy ++ (0 ∷ []);
      messages = [];
      author = none;
    },
    e,
  )

-- The difference of two `uint64_t`.
unfoldable pub lethread_message_count : LeThread → ℕ
lethread_message_count t = (t.next_message_id + u64_mod - t.first_message_id) % u64_mod

-- The status, what is written to `*lemessage`, and the thread afterwards.
unfoldable pub lemessage_create :
    LeThread → Bytes → ℕ → Outcome (LeStatus × Option LeMessage × LeThread)
lemessage_create lethread text by_lethread_author = do
  size ← strlen text
  if ltb size min_message_size || ltb max_message_size size
      then ok (lestatus_idat, none, lethread)
      else (do
        copy ← strncpy text size
        let new_lemessage : LeMessage = record {
          id = lethread.next_message_id;
          text = copy ++ (0 ∷ []);
          by_lethread_author = by_lethread_author;
          lethread = some lethread.id;
        }
        ok (
          lestatus_ok,
          some new_lemessage,
          record lethread {
            next_message_id = (lethread.next_message_id + 1) % u64_mod;
            messages = lethread.messages ++ (new_lemessage ∷ []);
          },
        ))

-- The author's token is random, or zeroed space for one and its terminator.
unfoldable pub leauthor_create : LeThread → Bool → Entropy → Outcome (LeThread × LeAuthor × Entropy)
leauthor_create lethread create_token e = do
  (r, e) ← rand_uint64_t e
  (token, e) ←
      if create_token then rand_string token_size e else ok (replicate (token_size + 1) 0, e)
  let new_leauthor : LeAuthor = record { id = r % 0xffff_ffff; token = token }
  ok (record lethread { author = some new_leauthor }, new_leauthor, e)

-- As an `int`: TRUE, FALSE or, with no author, -LESTATUS_NPTR.
unfoldable pub is_token_valid : LeThread → Bytes → Outcome ℕ
is_token_valid lethread token = elim lethread.author [
  | none ↦ ok (u32_mod - 7)
  | some author ↦ do same ← strncmp_eq author.token token token_size; ok (if same then 1 else 0)
]
