-- ===== src/Tests.antt =====
-- Runs of the definitions on concrete inputs, and the theorems at inputs that meet their hypotheses.
pub mod CodecvtTests
pub mod IndexerTests
pub mod StrlibTests
pub mod RingTests
pub mod BstTests
pub mod BufferTests
pub mod CmdlineTests
pub mod JsonTests
pub mod ListTests
pub mod RandomTests
pub mod RegexTests
