-- ===== src/Translations/Zh/Wallet.antt =====
-- The Chinese texts of the views of the wallet, lines 997 to 1093 of frontend/src/i18n/translations.ts.
use lokinode.Translations.Table.{Table}
use mathlib.Core.List.{[], ◌∷◌}

unfoldable pub texts : Table
texts =
    ("send.total_cost", "总计")
    ∷ ("send.confirm_send", "确认并发送")
    ∷ ("send.recipient", "收款地址")
    ∷ ("send.amount", "金额 (FLC)")
    ∷ ("send.available", "可用: {{amount}} FLC")
    ∷ ("send.fee_speed", "手续费速度")
    ∷ ("send.economy", "经济")
    ∷ ("send.standard", "标准")
    ∷ ("send.fast", "快速")
    ∷ ("send.next", "下一步")
    ∷ ("send.back", "返回")
    ∷ ("send.review", "确认")
    ∷ ("send.estimating", "估算中…")
    ∷ ("send.confirm_title", "确认交易")
    ∷ ("send.to", "收款方")
    ∷ ("send.amount_label", "金额")
    ∷ ("send.fee_rate", "费率")
    ∷ ("send.est_fee", "预计手续费")
    ∷ ("send.balance_after", "发送后余额")
    ∷ ("send.coins", "发送")
    ∷ ("send.sending", "发送中…")
    ∷ ("send.success", "已发送！")
    ∷ ("send.errors.address", "地址必填")
    ∷ ("send.errors.amount", "金额无效")
    ∷ ("send.errors.fee", "无法估算手续费")
    ∷ ("send.errors.failed", "发送失败")
    ∷ ("send.address_ph", "flc1q…")
    ∷ ("send.address_first", "请先输入收款人地址")
    ∷ ("send.amount_ph", "0.00000000")
    ∷ ("send.review_title", "确认交易")
    ∷ ("send.sending_label", "发送金额")
    ∷ ("send.network_fee", "网络费用")
    ∷ ("send.arrival_est", "预计到账: ~{{time}} 分钟")
    ∷ ("send.calculating", "计算中…")
    ∷ ("send.errors.exceeds_balance", "金额超出余额")
    ∷ ("send.errors.leave_fee_room", "金额过高 — 请为手续费预留空间（约 {{fee}} FLC）")
    ∷ ("history.empty", "暂无交易")
    ∷ ("history.load_more", "加载更多 (还有{{count}}条)")
    ∷ ("history.unconfirmed", "未确认")
    ∷ ("history.conf", "{{count}} 确认")
    ∷ ("about.version", "版本")
    ∷ ("about.latest", "最新")
    ∷ ("about.latest_badge", "最新")
    ∷ ("about.download", "下载更新")
    ∷ ("about.github", "在 GitHub 上查看")
    ∷ ("update.title", "有可用更新")
    ∷ ("update.body", "版本 {{version}} 包含安全改进和错误修复。")
    ∷ ("update.later", "稍后")
    ∷ ("update.now", "立即更新")
    ∷ ("wallet.setup.title", "钱包设置")
    ∷ ("wallet.setup.new", "新钱包")
    ∷ ("wallet.setup.mnemonic", "助记词")
    ∷ ("wallet.setup.private", "私钥")
    ∷ ("wallet.pwd.title", "设置钱包密码")
    ∷ ("wallet.pwd.label", "钱包密码")
    ∷ ("wallet.pwd.confirm", "确认密码")
    ∷ ("wallet.pwd.repeat_ph", "重复密码")
    ∷ ("wallet.new.title", "额外保护")
    ∷ ("wallet.new.optional", "(可选)")
    ∷ ("wallet.new.seed_pwd", "种子密码")
    ∷ ("wallet.new.seed_pwd_ph", "可选 — 留空则不设置")
    ∷ ("wallet.new.confirm_pwd", "确认密码")
    ∷ ("wallet.new.confirm_pwd_ph", "重复密码")
    ∷ ("wallet.new.generate", "生成钱包")
    ∷ ("wallet.new.recovery_title", "助记词")
    ∷ ("wallet.new.recovery_desc", "请记录这24个单词并妥善保管，这是恢复钱包的唯一方式。")
    ∷ ("wallet.new.saved_btn", "我已保存助记词")
    ∷ ("wallet.new.mismatch", "密码不匹配")
    ∷ ("wallet.new.error", "钱包错误")
    ∷ ("wallet.import.recovery", "助记词")
    ∷ ("wallet.import.recovery_ph", "输入24个单词，以空格分隔")
    ∷ ("wallet.import.seed_pwd", "种子密码（可选）")
    ∷ ("wallet.import.seed_pwd_ph", "可选 — 留空则不设置")
    ∷ ("wallet.import.restore", "恢复钱包")
    ∷ ("wallet.import.error_24words", "必须恰好24个单词")
    ∷ ("wallet.import.error", "导入错误")
    ∷ ("wallet.private.label", "私钥")
    ∷ ("wallet.private.ph", "e9860a33a39e80c427382d619946808f5d75571694f6c4d7e9f3b5c777d0a7a3")
    ∷ ("wallet.errors.key_required", "需要私钥")
    ∷ ("wallet.mnemonic.notice", "重要安全提示")
    ∷ ("wallet.mnemonic.ensure", "请确保您已安全备份助记词。")
    ∷ ("wallet.mnemonic.point1", "这是您备份这些单词的唯一机会")
    ∷ ("wallet.mnemonic.point2", "如果没有此备份，丢失钱包后将无法找回")
    ∷ ("wallet.mnemonic.point3", "请将备份存放在安全的地方，切勿与任何人分享")
    ∷ ("wallet.mnemonic.footer", "确认后，您将无法再次看到这些单词")
    ∷ ("wallet.mnemonic.back", "返回")
    ∷ ("wallet.mnemonic.confirm", "我已备份助记词")
    ∷ ("common.info", "信息")
    ∷ ("common.close", "关闭")
    ∷ ("common.apply", "应用")
    ∷ ("common.save", "保存")
    ∷ ("common.copy", "复制")
    ∷ ("common.copied", "已复制")
    ∷ ("common.processing", "处理中…")
    ∷ ("common.error", "错误")
    ∷ ("common.continue", "继续")
    ∷ []
