-- ===== src/Tests/Samples.antt =====
-- A server with one thread of two messages, and bytes for its random source.
use le_forum.Common.{refl, [], ◌∷◌, ◌++◌, some, none, replicate}
use le_forum.Clib.Strings.{Bytes, codes}
use le_forum.Clib.Words.{le_value}
use le_forum.Forum.{LeThread, LeMessage, LeAuthor}
use le_forum.Security.{Entropy, rand_uint64_t, rand_string}
use le_forum.Disk.{Disk}
use le_forum.Server.{Server}
use le_forum.Server.Query.Create.{Draws}

abbrev pub token : Bytes
token = codes "abcdefghijklmnopqrstuvwx"

abbrev pub author : LeAuthor
author = record { id = 7; token = token }

abbrev pub hello : LeMessage
hello = record {
  id = 5;
  text = codes "hello" ++ (0 ∷ []);
  by_lethread_author = 1;
  lethread = some 0;
}

abbrev pub thanks : LeMessage
thanks = record {
  id = 6;
  text = codes "thanks" ++ (0 ∷ []);
  by_lethread_author = 0;
  lethread = some 0;
}

abbrev pub news : LeThread
news = record {
  id = 0;
  first_message_id = 5;
  next_message_id = 7;
  topic = codes "news" ++ (0 ∷ []);
  messages = hello ∷ thanks ∷ [];
  author = some author;
}

abbrev pub empty_disk : Disk
empty_disk = record { folders = λ _. none; lemeta = none }

-- Three numbers of eight bytes, and 24 bytes for a token.
abbrev pub random : Entropy
random = replicate 24 1 ++ replicate 24 40

abbrev pub server : Server
server = record {
  lethreads = news ∷ [];
  next_lethread_id_value = 1;
  lethread_queries = [];
  lemessage_queries = [];
  leauthor_queries = [];
  disk = empty_disk;
  entropy = random;
}

pub draws : Draws server.entropy
unfolding rand_uint64_t rand_string le_value
draws = record {
  unused = 0x0101_0101_0101_0101;
  first_id = 0x0101_0101_0101_0101;
  author_id = 0x0101_0101_0101_0101;
  token = replicate 24 73;
  after_unused = replicate 16 1 ++ replicate 24 40;
  after_first = replicate 8 1 ++ replicate 24 40;
  after_author = replicate 24 40;
  after_token = [];
  draw_unused = refl;
  draw_first = refl;
  draw_author = refl;
  draw_token = refl;
}
