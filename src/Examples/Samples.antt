-- ===== src/Examples/Samples.antt =====
-- Data that several modules of examples share.
use qarau.Common.{true, some}
use qarau.Common.Int.{ℤ, pos}
use qarau.Store.{Video}

-- A row of the video 7, of the given duration.
abbrev pub sample_video : ℤ → Video
sample_video micros = record {
  id = 7;
  online_video_id = "abc";
  title = "a talk";
  channel_id = "c1";
  channel_title = "talks";
  published_at = 5;
  duration_micros = micros;
  views = pos 2000;
  likes = pos 30;
  default_lang = some "kk";
  embeddable = true;
  thumbnail_url = some "u";
  thumbnail_width = some (pos 120);
  thumbnail_height = some (pos 90);
}
