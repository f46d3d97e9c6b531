-- ===== src/Cli.antt =====
-- The commands of the command line interface that work on files: cli/cmd.
pub mod GraminePrepare
pub mod PackageInfo
